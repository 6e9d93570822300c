-- ===== src/Tests/Pages.antt =====
-- A page with two rows, the first of which is erased.
use skibidi_ql.Prelude.{
  ℕ, ◌+◌, ◌*◌, ◌≤◌, ◌<◌, ◌≡◌, subst, sym, none, some, true, false, List, [], ◌∷◌, ok, ap, arith,
  length, ◌⊎◌, inl, inr, ◌==◌, if◌then◌else◌,
}
use skibidi_ql.Storage.Page.Memory.{Bytes}
use skibidi_ql.Storage.Page.{
  zeros, page_size, initialize, free_space, insert, erase, update, compact, read, read_view,
  mapped_read_view,
}
use skibidi_ql.Storage.Page.Invariant.{IsPage}
use skibidi_ql.Storage.Page.Insert.{insert_lem, Fits, Full, HasRoom}
use skibidi_ql.Storage.Page.Change.{erase_lem, update_lem}
use skibidi_ql.Storage.Page.Compact.{compact_keeps_rows}
use skibidi_ql.Storage.Page.Views.{initialize_lem, views_agree, bytes_of}
use skibidi_ql.Storage.Page.Weights.{total}
use skibidi_ql.Storage.Page.Fields.{count}

insert-IsPage : (p : Bytes) (row : List ℕ) → IsPage p → length row ≤ 65535 → IsPage (insert p row).1
insert-IsPage p row w h = elim (insert_lem p row w h) [
  | inl (room, (t, q, done, inserted)) ↦ subst IsPage (sym (ap (λ r. r.1) done)) inserted.is_page
  | inr (room, (q, done, is_page, same)) ↦ subst IsPage (sym (ap (λ r. r.1) done)) is_page
]

erase-IsPage : (p : Bytes) (s : ℕ) → IsPage p → IsPage (erase p s).1
erase-IsPage p s w = elim (erase_lem p s w) [
  | inl (gone, done) ↦ subst IsPage (sym (ap (λ r. r.1) done)) w
  | inr (row, q, was, done, is_page, same) ↦ subst IsPage (sym (ap (λ r. r.1) done)) is_page
]

abbrev one_row : Bytes
one_row = (insert (initialize zeros) (b'a' ∷ b'b' ∷ [])).1

abbrev two_rows : Bytes
two_rows = (insert one_row (b'x' ∷ b'y' ∷ b'z' ∷ [])).1

-- Slot 0 is free, slot 1 holds three bytes.
abbrev page : Bytes
page = (erase two_rows 0).1

page-IsPage : IsPage page
page-IsPage = erase-IsPage two_rows 0 (
    insert-IsPage one_row (b'x' ∷ b'y' ∷ b'z' ∷ [])
      (insert-IsPage (initialize zeros) (b'a' ∷ b'b' ∷ []) (initialize_lem zeros).0 (omega arith))
      (omega arith))

insert_lem_example :
    (HasRoom page (b'q' ∷ []) × Fits page (b'q' ∷ []))
    ⊎ ((¬ HasRoom page (b'q' ∷ [])) × Full page (b'q' ∷ []))
insert_lem_example = insert_lem page (b'q' ∷ []) page-IsPage (omega arith)

compact_keeps_rows_example :
    (q : Bytes) × (compact page ≡ ok q)
    × IsPage q
    × (count q ≡ count page)
    × ((s : ℕ) → read q s ≡ read page s)
    × (free_space q + (16 + count page * 6) + total page 0 (count page) ≡ page_size)
compact_keeps_rows_example = compact_keeps_rows page page-IsPage

erase_lem_example :
    ((read page 1 ≡ ok none) × (erase page 1 ≡ (false, page)))
    ⊎ ((row : List ℕ) × (q : Bytes) × (read page 1 ≡ ok (some row))
        × (erase page 1 ≡ (true, q))
        × IsPage q
        × ((u : ℕ) → read q u ≡ (if u == 1 then ok none else read page u)))
erase_lem_example = erase_lem page 1 page-IsPage

update_lem_example :
    (((read page 1 ≡ ok none) ⊎ ((old : List ℕ) × (read page 1 ≡ ok (some old)) × (length old < 2)))
      × (update page 1 (b'u' ∷ b'v' ∷ []) ≡ (false, page)))
    ⊎ ((old : List ℕ) × (q : Bytes) × (read page 1 ≡ ok (some old))
        × (2 ≤ length old)
        × (update page 1 (b'u' ∷ b'v' ∷ []) ≡ (true, q))
        × IsPage q
        × ((u : ℕ) → read q u ≡ (if u == 1 then ok (some (b'u' ∷ b'v' ∷ [])) else read page u)))
update_lem_example = update_lem page 1 (b'u' ∷ b'v' ∷ []) page-IsPage

views_agree_example :
    (read page 1 ≡ bytes_of page (read_view page 1)) × (mapped_read_view page 1 ≡ read_view page 1)
views_agree_example = views_agree page 1 page-IsPage

initialize_lem_example :
    IsPage (initialize page)
    × ((s : ℕ) → read (initialize page) s ≡ ok none)
    × (free_space (initialize page) + 16 ≡ page_size)
initialize_lem_example = initialize_lem page
