-- ===== src/Storage/Dropbox/Listing.antt =====
-- The loop over the pages of a listing (`list_new_files` of app/services/storage/dropbox.py).
use event_creator.Prelude.{
  ℕ, zero, suc, ◌≤◌, ◌≡◌, refl, ap, none, some, List, [], ◌∷◌, ◌++◌, Empty, length, arith,
}
use mathlib.Core.List.{append_assoc, append-nil}
use event_creator.Python.Exception.{ok}
use event_creator.Python.Json.{Value}
use event_creator.Python.Text.{Text}
use event_creator.Database.{RemoteFile}
use event_creator.Storage.Http.{Response}
use event_creator.Storage.Token.{Account, Session}
use event_creator.Storage.Dropbox.{read_page, continue_listing, list_pages}

unfoldable pub concat : List (List RemoteFile) → List RemoteFile
concat [] = []
concat (page ∷ pages) = page ++ concat pages

module _ (account : Account) (dumps : Value → Text) where
  -- The service answers a listing with these pages: each but the last has a cursor, with which the
  -- next page is asked for.
  unfoldable pub IsListing : Response → Session → List (List RemoteFile) → Session → Type 0
  IsListing response self [] final = Empty
  IsListing response self (page ∷ []) final =
      read_page account dumps response self ≡ (ok (page, none), final)
  IsListing response self (page ∷ after ∷ pages) final =
      (cursor : Value) × (between : Session) × (next : Response) × (asked : Session) × (read_page
          account dumps response self
        ≡ (ok (page, some cursor), between))
      × (continue_listing account dumps cursor between ≡ (ok next, asked))
      × IsListing next asked (after ∷ pages) final

  -- Where the service ends the listing after some number of pages, the loop returns with at least so
  -- much fuel, and with the files of all pages in their order.
  pub list_pages-concat :
      (fuel : ℕ) (files : List RemoteFile) (response : Response) (self : Session)
      (pages : List (List RemoteFile)) (final : Session)
      → IsListing response self pages final
      → length pages ≤ fuel
      → list_pages account dumps fuel files response self
        ≡ (ok (some (files ++ concat pages)), final)
  unfolding IsListing list_pages concat
  list_pages-concat fuel files response self [] final h enough = elim h [ ]
  list_pages-concat zero files response self (page ∷ pages) final h enough = absurd (omega arith)
  list_pages-concat (suc fuel) files response self (page ∷ []) final h enough =
      rw (h, list_pages, append-nil page) refl
  list_pages-concat (suc fuel) files response self (page ∷ after ∷ pages) final h enough =
      let (cursor, between, next, asked, read, continued, rest) = h in
      rw
        (
          read,
          list_pages,
          continued,
          list_pages-concat fuel (files ++ page) next asked (after ∷ pages) final rest
              (omega arith),
        )
        (ap (λ l. (ok (some l), final)) (append_assoc files page (concat (after ∷ pages))))
