-- ===== src/Tests/Walking.antt =====
-- Going through a partition with an iterator, and writing a value again.
use jekv.Base.{◌≡◌, refl, [], ◌∷◌, none, some, arith, ok, err, not_found}
use jekv.Config.{type_any_without_seg, group_id_any}
use jekv.Port.Laws.{ram_driver, ram_driver-IsReliable}
use jekv.Item.{decode, strncmp_eq}
use jekv.Sector.Find.{verdict, matches}
use jekv.Sector.Find.First.{Walk}
use jekv.Ptm.{System, Cursor, storage_at}
use jekv.Iterator.{new_cursor, cursor_next, cursor_at, cursor_query, look_up_type}
use jekv.Iterator.Order.{Leads, cursor_next-Leads, on_entry}
use jekv.Api.Walks.{Walks, walk, walk_end}
use jekv.Tests.Framing.{one_storage, one_ctx-IsReady}
use jekv.Tests.Sessions.{busy, simple_platform}

-- A new iterator over every group.
abbrev first_cursor : Cursor
first_cursor = new_cursor ⦃p = simple_platform⦄ 4 1 group_id_any type_any_without_seg

one_leads :
    Leads one_storage.flash one_storage.storage.sm
      (cursor_query first_cursor)
      (0 ∷ [])
      0
      (some (0, 0))
unfolding verdict matches decode strncmp_eq look_up_type
one_leads = Leads.here (one_ctx-IsReady.placed, refl) (Walk.first (omega arith) refl)

cursor_next-Leads_example : cursor_next first_cursor one_storage ≡ (
  ok (
      on_entry one_storage.storage.group_list one_storage.flash one_storage.storage.sm first_cursor
        (some (0, 0))),
  one_storage,
)
cursor_next-Leads_example =
    cursor_next-Leads ram_driver-IsReliable first_cursor one_storage 0 [] (some (0, 0)) refl
      one_leads

-- A system with that storage and the iterator.
abbrev walked : System
walked = record busy {
  flash = one_storage.flash;
  storages = record { at = 1; storage = one_storage.storage } ∷ [];
  cursors = first_cursor ∷ [];
}

walked-Walks : Walks walked 4 129 first_cursor one_storage.storage
unfolding cursor_at storage_at
walked-Walks = record {
  allocated = refl;
  linked = refl;
  once = (refl, tt);
  some_active = omega arith;
  track = tt;
  near = omega arith;
}

walk_end_example :
    ((walk 129 4 walked).0 ≡ ok (err not_found, none))
    × ((walk 129 4 walked).1.flash ≡ one_storage.flash)
walk_end_example = walk_end 129 4 walked first_cursor one_storage.storage walked-Walks
