-- ===== src/Sector/State.antt =====
-- src/jekv_sector.h, and jekv_sector_set_state, jekv_sector_erase, sector_get_next_address,
-- jekv_sector_init and sector_crc32 of src/jekv_sector.c.
use jekv.Base.{
  ℕ, ◌+◌, ◌*◌, ◌/◌, ◌%◌, List, [], ◌∷◌, ◌++◌, get_or, take, drop, replicate, le32, of_le32, u32,
  u32_max, Exec, ◌>>=◌, ◌>>◌, attempt, Result, ok,
}
use jekv.Config.{
  slice_size, sector_magic, version_num, sector_state_uninit, sector_state_using,
  sector_state_crash,
}
use jekv.Port.{Flash, Driver}
use jekv.Port.Crc32.{crc32}
use jekv.Hash.{Hash, hash_clear}
use jekv.Partition.{Partition, pt_write_raw, pt_erase}

-- jekv_sector_t, but its list node, which the sector manager keeps.
pub record Sector : Type 0 where
  pub state : ℕ
  pub version : ℕ
  pub next_free_slice : ℕ
  pub used_slice : ℕ
  pub droped_slice : ℕ
  pub address : ℕ
  pub serial_number : ℕ
  pub hash : Hash
  pub pt : Partition

-- jekv_sector_header_t
pub record SectorHeader : Type 0 where
  pub magic : ℕ
  pub state : ℕ
  pub reserve_1 : ℕ
  pub crc : ℕ
  pub serial_number : ℕ
  pub version : ℕ
  pub reserve_2 : List ℕ

-- The bytes from `serial_number` on: the rest of the header.
abbrev pub header_tail : SectorHeader → List ℕ
header_tail h = le32 h.serial_number ++ (h.version ∷ h.reserve_2)

abbrev pub encode_header : SectorHeader → List ℕ
encode_header h =
    (h.magic % 256) ∷ (h.magic / 256) ∷ h.state ∷ h.reserve_1 ∷ (le32 h.crc ++ header_tail h)

unfoldable pub decode_header : List ℕ → SectorHeader
decode_header b = record {
  magic = get_or b 0 0 + 256 * get_or b 1 0;
  state = get_or b 2 0;
  reserve_1 = get_or b 3 0;
  crc = of_le32 (get_or b 4 0) (get_or b 5 0) (get_or b 6 0) (get_or b 7 0);
  serial_number = of_le32 (get_or b 8 0) (get_or b 9 0) (get_or b 10 0) (get_or b 11 0);
  version = get_or b 12 0;
  reserve_2 = take 19 (drop 13 b);
}

-- JEKV_SECTOR_CRC_LEN bytes from `serial_number`.
unfoldable pub sector_crc32 : SectorHeader → ℕ
unfolding crc32
sector_crc32 header = crc32 u32_max (take 24 (header_tail header))

-- What a function of this file works on: the device, and the sector behind `sec`.
pub record Ctx : Type 0 where
  pub flash : Flash
  pub sec : Sector

abbrev pub on_flash {ℓ} : {A : Type ℓ} → (Flash → Result A × Flash) → Ctx → Result A × Ctx
on_flash m c = let (r, f) = m c.flash in (r, record c { flash = f })

abbrev pub update_sec : (Sector → Sector) → Exec Ctx (Unit {0})
update_sec g c = (ok tt, record c { sec = g c.sec })

abbrev pub the_sec : Exec Ctx Sector
the_sec c = (ok c.sec, c)

-- Where slice `index` starts, the header not counted.
abbrev pub slice_offset : Sector → ℕ → ℕ
slice_offset sec index = u32 (sec.address + (index + 1) * slice_size)

-- sector_get_next_address
abbrev pub get_next_address : Sector → ℕ
get_next_address sec = u32 (sec.address + slice_size + sec.next_free_slice * slice_size)

-- JEKV_SECTOR_STATE_OFF_SET
abbrev pub state_off_set : ℕ
state_off_set = 2

abbrev pub reset_slices : Sector → Sector
reset_slices sec = record sec {
  version = version_num;
  next_free_slice = 0;
  used_slice = 0;
  droped_slice = 0;
}

-- The header that jekv_sector_init writes.
unfoldable pub new_header : ℕ → SectorHeader
unfolding sector_crc32
new_header serial_number =
    let header : SectorHeader = record {
      magic = sector_magic;
      state = sector_state_using;
      reserve_1 = 255;
      crc = u32_max;
      serial_number = serial_number;
      version = version_num;
      reserve_2 = replicate 19 255;
    } in
    record header { crc = sector_crc32 header }

module _ ⦃d : Driver⦄ where
  -- jekv_sector_set_state
  unfoldable pub set_state : ℕ → Exec Ctx (Unit {0})
  unfolding pt_write_raw
  set_state state = do
    update_sec (λ sec. record sec { state = state })
    sec ← the_sec
    on_flash (pt_write_raw sec.pt (u32 (sec.address + state_off_set)) (state ∷ []))

  -- jekv_sector_erase. The result of marking the sector is not looked at.
  unfoldable pub sector_erase : Exec Ctx (Unit {0})
  unfolding set_state pt_erase hash_clear
  sector_erase = do
    attempt (set_state sector_state_crash)
    sec ← the_sec
    on_flash (pt_erase sec.pt sec.address)
    update_sec (λ sec. record (reset_slices sec) {
      state = sector_state_uninit;
      hash = hash_clear sec.hash;
    })

  -- jekv_sector_init
  unfoldable pub sector_init : Exec Ctx (Unit {0})
  unfolding pt_write_raw new_header
  sector_init = do
    update_sec (λ sec. record (reset_slices sec) { state = sector_state_using })
    sec ← the_sec
    on_flash (pt_write_raw sec.pt sec.address (encode_header (new_header sec.serial_number)))
