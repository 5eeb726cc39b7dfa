-- ===== src/Fs/Vfs/Table.antt =====
-- Mounting and unmounting.
use sea_star_os.Base.{
  ℕ, zero, suc, ◌+◌, ◌-◌, ◌≤◌, ◌<◌, ◌≡◌, refl, ◌⊎◌, inl, inr, ◌∙◌, set, Option, none, some, [], ◌∷◌,
  arith, ◌==◌, if◌then◌else◌, length, get_elem?, length-set, get_elem?-set_self, get_elem?-set_ne,
  get_elem?-past,
}
use sea_star_os.Fs.Vfs.{
  FileSystem, Devices, file_system_of, store_slot, vol_register_file_system,
  vol_unregister_file_system, vol_unregister_file_system_by_id,
}

device_range : (d : ℕ) → ((b'a' ≤ d) × (d ≤ b'z')) ⊎ ((d < b'a') ⊎ (b'z' < d))
device_range d = ground arith

module _ {S : Type 0} where
  store_slot_lem :
      (table : Devices S) (num : ℕ) (slot : Option (FileSystem S))
      → num < length table
      → store_slot table num slot ≡ some (set table num slot)
  unfolding store_slot
  store_slot_lem table num slot h = ground arith

  -- In a table of 26 slots, a file system registered for a device from 'a' to 'z' is the one found for it, and the slot of
  -- every other device, and the number of slots, stay as they were.
  pub file_system_of-register :
      (table : Devices S) (fs : FileSystem S) (d e : ℕ)
      → length table ≡ 26
      → b'a' ≤ d
      → d ≤ b'z'
      → (vol_register_file_system table (some fs) d ≡ some (set table (d - b'a') (some fs)))
        × (file_system_of (set table (d - b'a') (some fs)) e
            ≡ (if e == d then some (some fs) else file_system_of table e))
        × (length (set table (d - b'a') (some fs)) ≡ 26)
  unfolding file_system_of vol_register_file_system
  file_system_of-register table fs d e l lo hi = (
    ground (arith, store_slot_lem table (d - b'a') (some fs)),
    ground (
      arith,
      get_elem?-set_self table (d - b'a') (some fs),
      get_elem?-set_ne table (d - b'a') (e - b'a') (some fs),
      get_elem?-past table (e - b'a'),
    ),
    ground (arith, length-set table (d - b'a') (some fs)),
  )

  -- the table after a write, by the slots: that of the device `d` holds `slot`, the others are kept
  abbrev pub IsSlotSet : Devices S → ℕ → Option (FileSystem S) → Devices S → Type 0
  IsSlotSet table d slot table' =
      (length table' ≡ 26)
      × ((e : ℕ)
          → e < 26
          → get_elem? table' e ≡ (if e + b'a' == d then some slot else get_elem? table e))

  store_slot-IsSlotSet :
      (table : Devices S) (d : ℕ) (slot : Option (FileSystem S))
      → length table ≡ 26
      → b'a' ≤ d
      → d ≤ b'z'
      → IsSlotSet table d slot (set table (d - b'a') slot)
  store_slot-IsSlotSet table d slot l lo hi = (
    length-set table (d - b'a') slot ∙ l,
    λ e h.
        ground (
          arith,
          get_elem?-set_self table (d - b'a') slot,
          get_elem?-set_ne table (d - b'a') e slot,
        ),
  )

  kept-IsSlotSet :
      (table : Devices S) (d : ℕ) (slot : Option (FileSystem S))
      → length table ≡ 26
      → ((d < b'a') ⊎ (b'z' < d))
      → IsSlotSet table d slot table
  kept-IsSlotSet table d slot l o = (l, λ e h. ground arith)

  -- Mounting a file system on any device byte below 256, and unmounting any, write inside of the table
  -- of 26 slots or nowhere: the slot of that device, where the byte is one from 'a' to 'z', is
  -- then the file system, or empty, and every other slot is as before.
  pub register_in_bounds :
      (table : Devices S) (fs : FileSystem S) (d : ℕ)
      → length table ≡ 26
      → d < 256
      → ((table' : Devices S) × (vol_register_file_system table (some fs) d ≡ some table')
          × IsSlotSet table d (some fs) table')
        × ((table' : Devices S) × (vol_unregister_file_system_by_id table d ≡ some table')
            × IsSlotSet table d none table')
  unfolding vol_register_file_system vol_unregister_file_system_by_id
  register_in_bounds table fs d l b = elim (device_range d) [
    | inl (lo, hi) ↦ (
      (
        set table (d - b'a') (some fs),
        ground (arith, store_slot_lem table (d - b'a') (some fs)),
        store_slot-IsSlotSet table d (some fs) l lo hi,
      ),
      (
        set table (d - b'a') none,
        ground (arith, store_slot_lem table (d - b'a') none),
        store_slot-IsSlotSet table d none l lo hi,
      ),
    )
    | inr o ↦ (
      (table, ground arith, kept-IsSlotSet table d (some fs) l o),
      (table, ground arith, kept-IsSlotSet table d none l o),
    )
  ]

  -- After an unmount no slot points to the file system, and every slot that pointed elsewhere, or
  -- nowhere, is as it was.
  pub get_elem?-unregister :
      (table : Devices S) (fsys : FileSystem S) (i : ℕ)
      → get_elem? (vol_unregister_file_system table fsys) i ≡ elim (get_elem? table i) [
        | none ↦ none
        | some none ↦ some none
        | some (some fs) ↦ some (if fs.address == fsys.address then none else some fs)
      ]
  unfolding vol_unregister_file_system
  get_elem?-unregister [] fsys i = refl
  get_elem?-unregister (none ∷ table) fsys zero = refl
  get_elem?-unregister (none ∷ table) fsys (suc i) = get_elem?-unregister table fsys i
  get_elem?-unregister (some fs ∷ table) fsys zero = refl
  get_elem?-unregister (some fs ∷ table) fsys (suc i) = get_elem?-unregister table fsys i
