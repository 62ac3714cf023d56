-- ===== src/Hashset.antt =====
-- src/hashset.c: a set of keys, as a hash table whose values are bytes that nobody reads.
pub mod Members
pub mod Tests
use mathlib.Core.Option.{map as map_option}
use libcp.Prelude.{ℕ, Bool, false, Option, none, some, [], if◌then◌else◌}
use libcp.Memory.{Env, World, Status, done, failed, malloc}
use libcp.Probing.{KeyKind, scalar, Key}
use libcp.Hashmap.{Hashmap}
use libcp.Hashmap as Hashmap
use libcp.Hashmap.Entries as Entries

pub record Hashset : Type 0 where
  pub map : Hashmap ℕ

-- sizeof(hashset).
abbrev pub sizeof_hashset : ℕ
sizeof_hashset = 88

-- The map's new state, and the status or the world with it.
abbrev pub with_map : Status × Hashmap ℕ × World ℕ → Status × Hashset × World ℕ
with_map (s, map, w) = (s, record { map = map }, w)

pub init : Hashset → KeyKind → ℕ → Status × Hashset
init set key_kind key_size =
    let (s, map) = Hashmap.init set.map key_kind key_size 1 false none in (s, record { map = map })

pub contains : Hashset → Key → Bool
contains set key = Hashmap.contains set.map key

pub first : Hashset → Option ℕ
first set = Entries.first set.map

pub next : Hashset → ℕ → Option ℕ
next set index = Entries.next set.map index

pub entry_key : Hashset → ℕ → Option Key
entry_key set index = Entries.entry_key set.map index

module _ (e : Env ℕ) where
  pub destroy : Hashset → World ℕ → Hashset × World ℕ
  destroy set w = let (map, w') = Entries.destroy e set.map w in (record { map = map }, w')

  pub new : KeyKind → ℕ → World ℕ → Option Hashset × World ℕ
  new key_kind key_size w =
      let (granted, w') = malloc e sizeof_hashset w in
      if granted
      then (let (s, set) =
            init
              (record {
                map = record {
                  capacity = 0;
                  size = 0;
                  tombstones = 0;
                  key_size = 0;
                  value_size = 0;
                  key_kind = scalar;
                  value_destroy = false;
                  value_copy = none;
                  states = [];
                  keys = [];
                  values = [];
                };
              })
              key_kind key_size in
          elim s [ done ↦ (some set, w') | failed ↦ (none, w') ])
      else (none, w')

  -- `aliased` says whether the two arguments are one pointer. `none` means that the call goes on.
  pub copy : Bool → Hashset → Hashset → World ℕ → Option (Status × Hashset × World ℕ)
  copy aliased dst src w = map_option with_map (Entries.copy e aliased dst.map src.map w)

  pub clone : Hashset → World ℕ → Option (Option Hashset × World ℕ)
  clone src w =
      let (found, w1) = new src.map.key_kind src.map.key_size w in
      elim found [
        | none ↦ some (none, w1)
        | some fresh ↦ elim (copy false fresh src w1) [
          | none ↦ none
          | some (s, set, w2) ↦ elim s [
            | done ↦ some (some set, w2)
            | failed ↦ let (set', w3) = destroy set w2 in some (none, w3)
          ]
        ]
      ]

  pub reserve : Hashset → ℕ → World ℕ → Option (Status × Hashset × World ℕ)
  reserve set capacity w = map_option with_map (Entries.reserve e set.map capacity w)

  pub add : Hashset → Key → World ℕ → Status × Hashset × World ℕ
  add set key w = with_map (Hashmap.assign e set.map key 1 w)

  pub delete : Hashset → Key → World ℕ → Status × Hashset × World ℕ
  delete set key w = with_map (Hashmap.delete e set.map key w)

  pub clear : Hashset → World ℕ → Hashset × World ℕ
  clear set w = let (map, w') = Entries.clear e set.map w in (record { map = map }, w')
