-- ===== src/Manifest.antt =====
-- src/manifest.rs: the log of the table files. An entry is a value; its line of JSON is not
-- modelled, so the file is the list of the entries whose lines parse. A `HashMap` by file number is
-- a list of entries whose first entry for a number counts: `insert` puts the new entry in front of
-- a list that the old one was taken from, so that a number stands in it once.
pub mod Maps
pub mod Apply
pub mod Snapshot
mod Tests
use flowdb.Base.{
  ℕ, ◌+◌, ◌%◌, ◌^◌, ◌≤◌, max, Bool, true, false, not, ltb, leb, ◌==◌, if◌then◌else◌, length, filter,
  find, any, map, Option, none, some, List, [], ◌∷◌, ◌++◌,
}
use flowdb.Base.Bytes.{Bytes}
use flowdb.Base.Int.{ℤ}
use flowdb.Bloom.{BloomFilter}

pub record SstInfo : Type 0 where
  pub id : ℕ
  pub records : ℕ
  pub bytes : ℕ
  pub min_ts : ℤ
  pub max_ts : ℤ
  pub min_expire : ℤ
  pub max_expire : ℤ
  pub bloom : Option BloomFilter

pub record BlockInfo : Type 0 where
  pub block_idx : ℕ
  pub min_key : Bytes
  pub max_key : Bytes
  pub min_ts : ℤ
  pub max_ts : ℤ
  pub min_expire : ℤ
  pub max_expire : ℤ

pub data ManifestEntry : Type 0 where
  flush : ℕ → SstInfo → List BlockInfo → ManifestEntry
  delete_sst : ℕ → ManifestEntry
  compaction : List ℕ → List SstInfo → List (ℕ × List BlockInfo) → ManifestEntry
  checkpoint : ℕ → ManifestEntry
  gc_delete_sst : ℕ → ManifestEntry
  update_bloom : ℕ → BloomFilter → ManifestEntry

abbrev pub Map : Type 0 → Type 0
Map A = List (ℕ × A)

module _ {A : Type 0} where
  abbrev pub is_key : ℕ → ℕ × A → Bool
  is_key k e = e.0 == k

  -- `map.get(&k)`
  unfoldable pub get : Map A → ℕ → Option A
  get m k = elim (find (is_key k) m) [ none ↦ none | some (_, v) ↦ some v ]

  -- `map.remove(&k)`
  unfoldable pub remove : Map A → ℕ → Map A
  remove m k = filter (λ e. not (is_key k e)) m

  -- `map.insert(k, v)`
  unfoldable pub insert : Map A → ℕ → A → Map A
  insert m k v = (k, v) ∷ remove m k

-- `ids.contains(&id)`
unfoldable pub contains : List ℕ → ℕ → Bool
contains ids id = any (λ i. i == id) ids

pub record ManifestState : Type 0 where
  pub last_flushed_seq : ℕ
  pub sstables : Map SstInfo
  pub block_infos : Map (List BlockInfo)
  pub active_sst_ids : List ℕ

unfoldable pub default_state : ManifestState
default_state = record {
  last_flushed_seq = 0;
  sstables = [];
  block_infos = [];
  active_sst_ids = [];
}

-- `if !ids.contains(&id) { ids.push(id) }`
unfoldable pub push_new : List ℕ → ℕ → List ℕ
push_new ids id = if contains ids id then ids else ids ++ (id ∷ [])

-- The arm of `DeleteSst` and `GcDeleteSst`, and a round of the first loop of `Compaction`.
unfoldable pub remove_sst : ManifestState → ℕ → ManifestState
remove_sst state id = record state {
  sstables = remove state.sstables id;
  block_infos = remove state.block_infos id;
  active_sst_ids = filter (λ i. not (i == id)) state.active_sst_ids;
}

unfoldable pub remove_all : ManifestState → List ℕ → ManifestState
remove_all state [] = state
remove_all state (id ∷ ids) = remove_all (remove_sst state id) ids

-- The second loop of `Compaction`.
unfoldable pub add_all : ManifestState → List SstInfo → ManifestState
add_all state [] = state
add_all state (info ∷ infos) =
    add_all
      (record state {
        sstables = insert state.sstables info.id info;
        active_sst_ids = push_new state.active_sst_ids info.id;
      })
      infos

-- The third.
unfoldable pub add_blocks : ManifestState → List (ℕ × List BlockInfo) → ManifestState
add_blocks state [] = state
add_blocks state ((sst_id, blks) ∷ blocks) =
    add_blocks (record state { block_infos = insert state.block_infos sst_id blks }) blocks

-- `if let Some(info) = map.get_mut(&id) { info.bloom = … }`
unfoldable pub set_bloom : Map SstInfo → ℕ → BloomFilter → Map SstInfo
set_bloom m sst_id bloom =
    map (λ e. if is_key sst_id e then (e.0, record e.1 { bloom = some bloom }) else e) m

unfoldable pub apply_entry : ManifestState → ManifestEntry → ManifestState
apply_entry state (flush seq sst blocks) = record state {
  last_flushed_seq = max state.last_flushed_seq seq;
  sstables = insert state.sstables sst.id sst;
  block_infos = insert state.block_infos sst.id blocks;
  active_sst_ids = push_new state.active_sst_ids sst.id;
}
apply_entry state (delete_sst sst_id) = remove_sst state sst_id
apply_entry state (gc_delete_sst sst_id) = remove_sst state sst_id
apply_entry state (compaction removed added blocks) =
    add_blocks (add_all (remove_all state removed) added) blocks
apply_entry state (checkpoint last_flushed_seq) = record state {
  last_flushed_seq = max state.last_flushed_seq last_flushed_seq;
}
apply_entry state (update_bloom sst_id bloom) = record state {
  sstables = set_bloom state.sstables sst_id bloom;
}

-- The loop of `Manifest::open`.
unfoldable pub apply_all : ManifestState → List ManifestEntry → ManifestState
apply_all state [] = state
apply_all state (entry ∷ entries) = apply_all (apply_entry state entry) entries

-- A manifest with its file. Errors of the file system are not modelled.
pub record Manifest : Type 0 where
  pub file : List ManifestEntry
  pub state : ManifestState
  pub entry_count : ℕ

unfoldable pub open_manifest : List ManifestEntry → Manifest
open_manifest file = record { file = file; state = apply_all default_state file; entry_count = 0 }

unfoldable pub append : Manifest → ManifestEntry → Manifest
append m entry = record {
  file = m.file ++ (entry ∷ []);
  state = apply_entry m.state entry;
  entry_count = m.entry_count + 1;
}

abbrev pub snapshot_threshold : ℕ
snapshot_threshold = 500

-- `block_infos.get(id).unwrap_or_default()`
unfoldable pub blocks_of : Map (List BlockInfo) → ℕ → List BlockInfo
blocks_of m id = elim (get m id) [ none ↦ [] | some blocks ↦ blocks ]

-- A `HashMap` is visited in some order of its entries, here in the order of the list.
unfoldable pub snapshot_entries : ManifestState → List ManifestEntry
snapshot_entries state =
    map (λ e. flush state.last_flushed_seq e.1 (blocks_of state.block_infos e.0)) state.sstables
    ++ (checkpoint state.last_flushed_seq ∷ [])

unfoldable pub snapshot : Manifest → Manifest
snapshot m = record m { file = snapshot_entries m.state; entry_count = length m.state.sstables + 1 }

unfoldable pub maybe_snapshot : Manifest → Manifest
maybe_snapshot m = if leb m.entry_count snapshot_threshold then m else snapshot m

-- `keys().max().unwrap_or(0)`
unfoldable pub max_sst_id : Map SstInfo → ℕ
max_sst_id [] = 0
max_sst_id (e ∷ m) = max e.0 (max_sst_id m)

-- The sum is a `u32`, which wraps in a release build.
unfoldable pub next_sst_id : Manifest → ℕ
next_sst_id m = (max_sst_id m.state.sstables + 1) % 2 ^ 32
