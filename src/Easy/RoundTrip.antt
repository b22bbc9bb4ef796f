-- ===== src/Easy/RoundTrip.antt =====
-- An int that is written through the easy interface is read back.
use jekv.Base.{
  ℕ, ◌≡◌, ◌≤◌, ◌<◌, refl, List, [], ◌∷◌, ◌++◌, some, length, length-append, drop, replicate, ok,
  arith, ap, ◌∙◌, ℤ, true,
}
use jekv.Config.{type_string, max_key_len}
use jekv.Port.{Driver}
use jekv.Port.Laws.{IsReliable}
use jekv.Ptm.{Handle, System}
use jekv.Storage.State.{Storage}
use jekv.Storage.Items.Kept.{HasRoom}
use jekv.Sector.Write.Program.{AllBytes, AllBytes-append}
use jekv.Api.Values.{set_str, get_str, is_value_type}
use jekv.Api.RoundTrip.{Writes, get_item-set_item}
use jekv.Easy.{Easy, easy_write_int, easy_read_int, easy_read_str, decimal, atoi}
use jekv.Easy.Decimal.{IsInt, atoi-decimal, length-decimal, decimal-AllBytes, append_one}

module _ ⦃d : Driver⦄ (key : List ℕ) (h : ℕ) where
  -- A write of an int that is stored.
  easy_write_int_stored :
      (turns : ℕ) (v : ℤ) (s s' : System)
      → set_str turns (some h) (some key) (some (decimal v)) s ≡ (ok tt, s')
      → easy_write_int turns (some key) v (record { system = s; handle = some h })
        ≡ (ok tt, record { system = s'; handle = some h })
  unfolding easy_write_int
  easy_write_int_stored turns v s s' e = rw e refl

  -- A read of an int that is found.
  easy_read_int_found :
      (def_value : ℤ) (bytes : List ℕ) (n : ℕ) (s : System)
      → get_str (some h) (some key) true (some 16) s ≡ (ok (ok bytes, n), s)
      → easy_read_int (some key) def_value (record { system = s; handle = some h }) ≡ (
        ok (atoi (bytes ++ drop (length bytes) (replicate 16 0))),
        record { system = s; handle = some h },
      )
  unfolding easy_read_int easy_read_str
  easy_read_int_found def_value bytes n s e = rw e refl

module _ ⦃d : Driver⦄ (reliable : IsReliable d) where
  -- With a reliable driver: where `g_handle` is open for writing, with a group id below 64, and its
  -- storage has one active sector that is ready and has the room, and no entry there has the hash of
  -- the key, an int of 32 bits that jekv_easy_write_int stores under a key of 1 to 15 bytes is what
  -- jekv_easy_read_int returns for that key, whatever its default, and the read changes nothing.
  pub easy_read_int-easy_write_int :
      (turns h : ℕ) (v def_value : ℤ) (key : List ℕ) (i : ℕ) (s : System) (info : Handle)
      (st : Storage)
      → Writes s h info st
      → HasRoom
          (record { flash = s.flash; storage = st })
          i
          info.group_id
          type_string
          key
          (decimal v ++ (0 ∷ []))
      → info.group_id < 64
      → IsInt v
      → 0 < length key
      → length key ≤ max_key_len
      → AllBytes key
      → (e : Easy) × (easy_write_int turns (some key) v (record { system = s; handle = some h })
          ≡ (ok tt, e))
        × (easy_read_int (some key) def_value e ≡ (ok v, e))
  unfolding set_str get_str is_value_type
  easy_read_int-easy_write_int turns h v def_value key i s info st w has hg int named short hk =
      let bytes = decimal v ++ (0 ∷ []) in
      let len : length bytes ≤ 12 =
        rw (length-append (decimal v) (0 ∷ [])) (omega (arith, length-decimal v)) in
      let (s', wrote, read) =
        get_item-set_item reliable turns h type_string key bytes 16 i s info st w has hg refl
          (omega arith) named short (omega (arith, len)) (omega arith) (omega (arith, len)) hk
          (AllBytes-append (decimal v) (0 ∷ []) (decimal-AllBytes v) (omega arith, tt)) in
      (
        record { system = s'; handle = some h },
        easy_write_int_stored key h turns v s s' wrote,
        easy_read_int_found key h def_value bytes (length bytes) s' read
            ∙ ap (λ r. (ok r, record { system = s'; handle = some h }))
                (ap atoi (append_one (decimal v) (drop (length bytes) (replicate 16 0)) 0)
                  ∙ atoi-decimal v (drop (length bytes) (replicate 16 0)) int),
      )
