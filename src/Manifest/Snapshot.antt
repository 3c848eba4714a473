-- ===== src/Manifest/Snapshot.antt =====
-- A snapshot, read again, is the state it was taken from.
use flowdb.Base.{
  ℕ, ◌≤◌, ◌≡◌, refl, sym, ◌∙◌, arith, true, false, leb, ◌==◌, ==_iff, if◌then◌else◌, map, All, none,
  some, List, [], ◌∷◌, ◌++◌, Bool-cases, inl, inr,
}
use flowdb.Manifest.{
  Map, Manifest, get, SstInfo, BlockInfo, ManifestEntry, flush, checkpoint, ManifestState,
  default_state, insert, contains, apply_entry, apply_all, open_manifest, snapshot, maybe_snapshot,
  snapshot_entries, blocks_of, snapshot_threshold,
}
use flowdb.Manifest.Maps.{has, Distinct, get-insert, contains-push_new}
use flowdb.Manifest.Apply.{IsValid}

-- The same files with the same blocks. The order of the numbers and the blocks of files that are
-- not in the map may differ.
pub record SameState (s t : ManifestState) : Type 0 where
  pub last_flushed_seq : s.last_flushed_seq ≡ t.last_flushed_seq
  pub sstables : (id : ℕ) → get s.sstables id ≡ get t.sstables id
  pub blocks :
      (id : ℕ)
      → (if has t.sstables id then blocks_of s.block_infos id else [])
        ≡ (if has t.sstables id then blocks_of t.block_infos id else [])
  pub active : (id : ℕ) → contains s.active_sst_ids id ≡ contains t.active_sst_ids id

-- The entries that a snapshot writes for the files `m`.
flushes : ℕ → Map (List BlockInfo) → Map SstInfo → List ManifestEntry
flushes seq blocks m = map (λ e. flush seq e.1 (blocks_of blocks e.0)) m

-- The state `t` after those entries and the checkpoint, read from the state `s`.
record Replays (q : ℕ) (blocks : Map (List BlockInfo)) (m : Map SstInfo) (s t : ManifestState)
    : Type 0 where
  last : s.last_flushed_seq ≤ q → t.last_flushed_seq ≡ q
  sstables : (id : ℕ) → get t.sstables id ≡ (if has m id then get m id else get s.sstables id)
  kept : (id : ℕ) → has m id ≡ true → blocks_of t.block_infos id ≡ blocks_of blocks id
  others : (id : ℕ) → has m id ≡ false → blocks_of t.block_infos id ≡ blocks_of s.block_infos id
  active :
      (id : ℕ)
      → contains t.active_sst_ids id ≡ (if has m id then true else contains s.active_sst_ids id)

pub get-cons :
    {A : Type 0} (e : ℕ × A) (m : Map A) (j : ℕ)
    → get (e ∷ m) j ≡ (if e.0 == j then some e.1 else get m j)
unfolding get
get-cons e m j = ground arith

blocks_of-insert :
    (m : Map (List BlockInfo)) (k : ℕ) (v : List BlockInfo) (j : ℕ)
    → blocks_of (insert m k v) j ≡ (if j == k then v else blocks_of m j)
unfolding blocks_of
blocks_of-insert m k v j = ground (arith, get-insert m k v j)

-- A number that is the first one's is none of the others'.
has-tail : (m : Map SstInfo) (k j : ℕ) → has m k ≡ false → k ≡ j → has m j ≡ false
has-tail m k j h e = rw (sym e) h

first_blocks :
    (e : ℕ × SstInfo) (infos blocks : Map (List BlockInfo)) (id : ℕ)
    → e.0 ≡ e.1.id
    → e.0 ≡ id
    → blocks_of (insert infos e.1.id (blocks_of blocks e.0)) id ≡ blocks_of blocks id
first_blocks e infos blocks id n k =
    rw (sym k, blocks_of-insert infos e.1.id (blocks_of blocks e.0) e.0) (ground arith)

Replays-flushes :
    (m : Map SstInfo) (q : ℕ) (blocks : Map (List BlockInfo)) (s : ManifestState)
    → Distinct m
    → All (λ e. e.0 ≡ e.1.id) m
    → Replays q blocks m s (apply_all s (flushes q blocks m ++ (checkpoint q ∷ [])))
unfolding apply_all apply_entry flushes
Replays-flushes [] q blocks s d n = record {
  last = λ h. omega arith;
  sstables = λ id. refl;
  kept = λ id h. cc;
  others = λ id h. refl;
  active = λ id. refl;
}
Replays-flushes (e ∷ m) q blocks s d n =
    let r =
      Replays-flushes m q blocks (apply_entry s (flush q e.1 (blocks_of blocks e.0))) d.1 n.1 in
    record {
      last = λ h. r.last (omega arith);
      sstables = λ id. ground (
        arith,
        r.sstables id,
        get-insert s.sstables e.1.id e.1 id,
        get-cons e m id,
        n.0,
        has-tail m e.0 id d.0,
      );
      kept = λ id h. elim (Bool-cases (has m id)) [
        | inl k ↦ r.kept id k
        | inr k ↦
            r.others id k
            ∙ first_blocks e s.block_infos blocks id n.0 ((==_iff e.0 id).0 (ground arith))
      ];
      others = λ id h. ground (
        arith,
        r.others id,
        blocks_of-insert s.block_infos e.1.id (blocks_of blocks e.0) id,
        n.0,
      );
      active = λ id. ground (arith, r.active id, contains-push_new s.active_sst_ids e.1.id id, n.0);
    }

pub get-has-none : (m : Map SstInfo) (id : ℕ) → has m id ≡ false → get m id ≡ none
unfolding get
get-has-none [] id h = refl
get-has-none (e ∷ m) id h = ground (arith, get-has-none m id)

snapshot-SameState :
    (s : ManifestState) → IsValid s → SameState (apply_all default_state (snapshot_entries s)) s
unfolding snapshot_entries flushes default_state get contains
snapshot-SameState s v =
    let r =
      Replays-flushes s.sstables s.last_flushed_seq s.block_infos default_state v.once v.named in
    record {
      last_flushed_seq = r.last (omega arith);
      sstables = λ id. ground (arith, r.sstables id, get-has-none s.sstables id);
      blocks = λ id. ground (arith, r.kept id);
      active = λ id. ground (arith, r.active id, v.active id);
    }

-- Where reading the file gives the state, up to the order of the active numbers and the blocks of
-- files that are gone, it does so after `maybe_snapshot`, which leaves the state alone.
pub maybe_snapshot-SameState :
    (m : Manifest)
    → IsValid m.state
    → SameState (open_manifest m.file).state m.state
    → SameState (open_manifest (maybe_snapshot m).file).state (maybe_snapshot m).state
      × ((maybe_snapshot m).state ≡ m.state)
unfolding maybe_snapshot snapshot open_manifest
maybe_snapshot-SameState m v h = elim (Bool-cases (leb m.entry_count snapshot_threshold)) [
  | inl e ↦ rw e (h, refl)
  | inr e ↦ rw e (snapshot-SameState m.state v, refl)
]
