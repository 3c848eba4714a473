-- ===== src/Manifest/Tests.antt =====
-- The theorems about the manifest at concrete inputs.
use flowdb.Base.{ℕ, ◌≡◌, refl, arith, false, none, List, [], ◌∷◌}
use flowdb.Base.Int.{pos}
use flowdb.Manifest.{
  Manifest, SstInfo, ManifestEntry, flush, compaction, checkpoint, contains, apply_entry, apply_all,
  default_state, remove_sst, remove_all, add_all, add_blocks, insert, remove, open_manifest, append,
  maybe_snapshot, next_sst_id, max_sst_id,
}
use flowdb.Manifest.Maps.{has}
use flowdb.Manifest.Apply.{
  IsValid, apply_entry-IsValid, open_manifest-IsValid, open_manifest-append, has-next_sst_id,
}
use flowdb.Manifest.Snapshot.{SameState, maybe_snapshot-SameState}

abbrev info : ℕ → SstInfo
info id = record {
  id = id;
  records = 10;
  bytes = 400;
  min_ts = pos 1;
  max_ts = pos 9;
  min_expire = pos 20;
  max_expire = pos 30;
  bloom = none;
}

abbrev file : List ManifestEntry
file = flush 5 (info 1) [] ∷ flush 9 (info 2) [] ∷ compaction (1 ∷ 2 ∷ []) (info 3 ∷ []) [] ∷ []

abbrev manifest : Manifest
manifest = record { file = file; state = (open_manifest file).state; entry_count = 501 }

apply_entry-IsValid_example :
    IsValid (apply_entry (open_manifest file).state (flush 12 (info 4) []))
apply_entry-IsValid_example =
    apply_entry-IsValid (open_manifest file).state (flush 12 (info 4) [])
      (open_manifest-IsValid file)

open_manifest-IsValid_example : IsValid (open_manifest file).state
open_manifest-IsValid_example = open_manifest-IsValid file

open_manifest-append_example :
    (open_manifest (append manifest (checkpoint 12)).file).state
    ≡ (append manifest (checkpoint 12)).state
open_manifest-append_example = open_manifest-append manifest (checkpoint 12) refl

manifest-SameState : SameState (open_manifest file).state (open_manifest file).state
manifest-SameState = record {
  last_flushed_seq = refl;
  sstables = λ id. refl;
  blocks = λ id. refl;
  active = λ id. refl;
}

maybe_snapshot-SameState_example :
    SameState (open_manifest (maybe_snapshot manifest).file).state (maybe_snapshot manifest).state
    × ((maybe_snapshot manifest).state ≡ manifest.state)
maybe_snapshot-SameState_example =
    maybe_snapshot-SameState manifest (open_manifest-IsValid file) manifest-SameState

manifest-max : max_sst_id manifest.state.sstables ≡ 3
unfolding max_sst_id open_manifest apply_all apply_entry default_state remove_all remove_sst add_all
    add_blocks insert remove
manifest-max = refl

has-next_sst_id_example :
    (has manifest.state.sstables (next_sst_id manifest) ≡ false)
    × (contains manifest.state.active_sst_ids (next_sst_id manifest) ≡ false)
has-next_sst_id_example =
    has-next_sst_id manifest (omega (arith, manifest-max)) (open_manifest-IsValid file)
