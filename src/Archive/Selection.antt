-- ===== src/Archive/Selection.antt =====
-- Which member of a ZIP archive app/core/archive.py takes the chat from, and how much it reads.
use event_creator.Prelude.{
  ◌+◌, ◌≤◌, ◌≡◌, ◌≢◌, ◌++◌, refl, Bool, true, false, List, [], ◌∷◌, length, arith, if◌then◌else◌,
  inl, inr, All, Among, filter, Among-filter, All-filter, none-filter,
}
use event_creator.Python.Text.{Text, lit, path_name}
use event_creator.Python.Exception.{Exception, Result, ok, err, ◌>>=◌, >>=-eq-ok}
use event_creator.Python.Text.Parts.{mem_char-All}
use event_creator.Archive.Members.{
  IsCleaned, regular-IsCleaned, IsChat, IsTxt, IsBefore, is_chat_iff, is_txt_iff, has_dot-All,
  best-IsBefore, All-not, All-implied, first-filter,
}
use event_creator.Archive.{
  Bytes, ZipInfo, Library, ChatExtraction, zip, max_decompressed_bytes, within_cap, read_handler,
  handling, handling_open, has_nul, has_dot, is_chat, is_txt, sorts_before, best, regular,
  decode_text, read_member, read_chat, find_plain, find_chat, first, txts, largest_or_plain,
  chat_or_txt, extract_members, extract_zip, extract_chat_text,
}

handled_le :
    (handler : Exception → Exception) (r : Result Bytes) {raw : Bytes}
    → handling handler (r >>= within_cap) ≡ ok raw
    → length raw ≤ max_decompressed_bytes
unfolding within_cap
handled_le handler (ok stream) h = ground arith
handled_le handler (err e) h = ground arith

-- `best` is one of the entries.
best-Among : (i : ZipInfo) (more : List ZipInfo) → Among (best i more) (i ∷ more)
unfolding best
best-Among i [] = inl refl
best-Among i (j ∷ more) =
    pick (sorts_before j i) (best-Among (if sorts_before j i then j else i) more)
  where
    pick :
        (b : Bool)
        → Among (best (if b then j else i) more) ((if b then j else i) ∷ more)
        → Among (best (if b then j else i) more) (i ∷ j ∷ more)
    pick true a = inr a
    pick false (inl e) = inl e
    pick false (inr a) = inr (inr a)

has_nul-All : (t : Text) → has_nul t ≡ false → All (λ c. c ≢ 0) t
unfolding has_nul
has_nul-All t h = mem_char-All 0 t h

module _ (lib : Library) (content : Bytes) where
  -- The extraction of one member: its text is what the bounded read of it decodes to.
  pub record IsMember (x : ChatExtraction) (info : ZipInfo) : Type 0 where
    pub raw : Bytes
    pub read : read_member lib content info ≡ ok raw
    pub bounded : length raw ≤ max_decompressed_bytes
    pub decoded : x.text ≡ decode_text lib raw
    pub named : x.member_name ≡ info.filename

  read_member-le :
      (info : ZipInfo) {raw : Bytes}
      → read_member lib content info ≡ ok raw
      → length raw ≤ max_decompressed_bytes
  unfolding read_member
  read_member-le info h =
      handled_le read_handler (lib.read_entry content info (max_decompressed_bytes + 1)) h

  read_chat-IsMember :
      (info : ZipInfo) (reason : Text) {x : ChatExtraction}
      → read_chat lib content info reason ≡ ok x
      → IsMember x info
  unfolding read_chat
  read_chat-IsMember info reason {x} h =
      let (raw, read, done) =
        >>=-eq-ok (read_member lib content info)
          (λ raw.
            ok
              (record { text = decode_text lib raw; member_name = info.filename; reason = reason }))
          h in
      record {
        raw = raw;
        read = read;
        bounded = read_member-le info read;
        decoded = ground arith;
        named = ground arith;
      }

  -- The member of the third rule: no dot in its name, no NUL in its text.
  pub record IsPlain (x : ChatExtraction) (infos : List ZipInfo) : Type 0 where
    pub info : ZipInfo
    pub among : Among info infos
    pub no_dot : has_dot lib info ≡ false
    pub no_nul : has_nul x.text ≡ false
    pub member : IsMember x info

  further :
      {x : ChatExtraction} {i : ZipInfo} {infos : List ZipInfo}
      → IsPlain x infos
      → IsPlain x (i ∷ infos)
  further p = record {
    info = p.info;
    among = inr p.among;
    no_dot = p.no_dot;
    no_nul = p.no_nul;
    member = p.member;
  }

  accepted :
      (nul : Bool) (i : ZipInfo) (infos : List ZipInfo) (rest : Result ChatExtraction) (raw : Bytes)
      (x : ChatExtraction)
      → read_member lib content i ≡ ok raw
      → has_dot lib i ≡ false
      → has_nul (decode_text lib raw) ≡ nul
      → (rest ≡ ok x → IsPlain x infos)
      → (if nul
          then rest
          else ok (record {
            text = decode_text lib raw;
            member_name = i.filename;
            reason = lit "used the only readable text file";
          }))
        ≡ ok x
      → IsPlain x (i ∷ infos)
  accepted true i infos rest raw x read d n later h = further (later h)
  accepted false i infos rest raw x read d n later h =
      let text : x.text ≡ decode_text lib raw = ground arith in
      record {
        info = i;
        among = inl refl;
        no_dot = d;
        no_nul = rw text n;
        member = record {
          raw = raw;
          read = read;
          bounded = read_member-le i read;
          decoded = text;
          named = ground arith;
        };
      }

  IsPlain-step :
      (dot : Bool) (i : ZipInfo) (infos : List ZipInfo) (rest : Result ChatExtraction)
      (x : ChatExtraction)
      → has_dot lib i ≡ dot
      → (rest ≡ ok x → IsPlain x infos)
      → (if dot
          then rest
          else (read_member lib content i >>= λ raw.
              if has_nul (decode_text lib raw)
              then rest
              else ok (record {
                text = decode_text lib raw;
                member_name = i.filename;
                reason = lit "used the only readable text file";
              })))
        ≡ ok x
      → IsPlain x (i ∷ infos)
  IsPlain-step true i infos rest x d later h = further (later h)
  IsPlain-step false i infos rest x d later h =
      let (raw, read, done) = >>=-eq-ok (read_member lib content i) _ h in
      accepted (has_nul (decode_text lib raw)) i infos rest raw x read d refl later done

  find_plain-IsPlain :
      (infos : List ZipInfo) {x : ChatExtraction}
      → find_plain lib content infos ≡ ok x
      → IsPlain x infos
  unfolding find_plain
  find_plain-IsPlain [] h = cc
  find_plain-IsPlain (i ∷ infos) {x} h =
      IsPlain-step (has_dot lib i) i infos (find_plain lib content infos) x refl
        (find_plain-IsPlain infos) h

  -- Why a member was taken: the first that is called `_chat.txt`; or, where there is none, the largest of
  -- those called `*.txt`, the least by name of several such; or, where there are neither, one that has no
  -- dot in its name and no NUL in its text.
  pub data Rule (members : List ZipInfo) (x : ChatExtraction) (info : ZipInfo) : Type 0 where
    by_name :
        (before after : List ZipInfo)
        → members ≡ before ++ info ∷ after
        → All (λ i. ¬ (IsChat lib i)) before
        → IsChat lib info
        → Rule members x info
    by_size :
        All (λ i. ¬ (IsChat lib i)) members
        → IsTxt lib info
        → All (λ i. IsTxt lib i → IsBefore info i) members
        → Rule members x info
    by_text :
        All (λ i. ¬ (IsChat lib i)) members
        → All (λ i. ¬ (IsTxt lib i)) members
        → All (λ c. c ≢ 0x2E) (path_name info.filename)
        → All (λ c. c ≢ 0) x.text
        → Rule members x info

  pub record IsTaken (members : List ZipInfo) (x : ChatExtraction) : Type 0 where
    pub info : ZipInfo
    pub among : Among info members
    pub member : IsMember x info
    pub rule : Rule members x info

  module _ (members : List ZipInfo) {x : ChatExtraction} where
    largest_or_plain-IsTaken :
        (ts : List ZipInfo)
        → txts lib members ≡ ts
        → All (λ i. ¬ (IsChat lib i)) members
        → largest_or_plain lib content members ts ≡ ok x
        → IsTaken members x
    unfolding largest_or_plain txts
    largest_or_plain-IsTaken [] e no_chats h =
        let p = find_plain-IsPlain members h in
        record {
          info = p.info;
          among = p.among;
          member = p.member;
          rule =
              by_text no_chats
                (All-not (is_txt lib) (is_txt_iff lib) members (none-filter (is_txt lib) members e))
                (has_dot-All lib p.info p.no_dot) (has_nul-All x.text p.no_nul);
        }
    largest_or_plain-IsTaken (t ∷ ts) e no_chats h =
        let chosen = Among-filter (is_txt lib) (best t ts) members (rw e (best-Among t ts)) in
        record {
          info = best t ts;
          among = chosen.0;
          member = read_chat-IsMember (best t ts) (lit "used largest .txt file") h;
          rule = by_size no_chats ((is_txt_iff lib (best t ts)).0 chosen.1) (
              All-implied (λ i h txt. h ((is_txt_iff lib i).1 txt)) members
                (All-filter (is_txt lib) (IsBefore (best t ts)) members
                  (rw e (best-IsBefore t ts))));
        }

    chat_or_txt-IsTaken :
        (chats : List ZipInfo)
        → filter (is_chat lib) members ≡ chats
        → chat_or_txt lib content members (first chats) ≡ ok x
        → IsTaken members x
    unfolding chat_or_txt
    chat_or_txt-IsTaken [] e h =
        largest_or_plain-IsTaken (txts lib members) refl
          (All-not (is_chat lib) (is_chat_iff lib) members (none-filter (is_chat lib) members e)) h
    chat_or_txt-IsTaken (i ∷ rest) e h =
        let chosen = Among-filter (is_chat lib) i members (rw e (inl refl)) in
        let (before, after, whole, fail) = first-filter (is_chat lib) members e in
        record {
          info = i;
          among = chosen.0;
          member = read_chat-IsMember i (lit "extracted _chat.txt") h;
          rule =
              by_name before after whole (All-not (is_chat lib) (is_chat_iff lib) before fail)
                ((is_chat_iff lib i).0 chosen.1);
        }

  extract_members-IsTaken :
      (members : List ZipInfo) {x : ChatExtraction}
      → extract_members lib content members ≡ ok x
      → IsTaken members x
  unfolding extract_members find_chat
  extract_members-IsTaken [] h = cc
  extract_members-IsTaken (i ∷ infos) h =
      chat_or_txt-IsTaken (i ∷ infos) (filter (is_chat lib) (i ∷ infos)) refl h

  handled_infos :
      (r : Result (List ZipInfo)) {infos : List ZipInfo} → handling_open r ≡ ok infos → r ≡ ok infos
  unfolding handling_open
  handled_infos (ok a) h = ground arith
  handled_infos (err e) h = cc

  -- When a ZIP archive is extracted, its directory was read, and, of its entries without directories,
  -- paths with `__MACOSX/` and names that start with `._`, the text is what one read of at most 20 MiB of
  -- one of them decodes to: the first called `_chat.txt`; or, where there is none, the largest of those
  -- called `*.txt`, the least by name of several such; or, where there are neither, one without a dot in
  -- its name whose text has no NUL. `_chat.txt` and `*.txt` are compared without case.
  pub extract_zip-IsTaken :
      {x : ChatExtraction} (source_name : Text)
      → extract_chat_text lib content zip source_name ≡ ok x
      → (infos : List ZipInfo) × (members : List ZipInfo) × (lib.infolist content ≡ ok infos)
        × IsCleaned infos members
        × IsTaken members x
  unfolding extract_chat_text extract_zip
  extract_zip-IsTaken source_name h =
      let (infos, opened, done) = >>=-eq-ok (handling_open (lib.infolist content)) _ h in
      (
        infos,
        regular infos,
        handled_infos (lib.infolist content) opened,
        regular-IsCleaned infos,
        extract_members-IsTaken (regular infos) done,
      )
