-- ===== src/Manifest/Apply.antt =====
-- Every entry keeps the state of the manifest well-formed.
use flowdb.Base.{
  ℕ, ◌+◌, ◌-◌, ◌%◌, ◌^◌, ◌<◌, ◌≡◌, refl, sym, ap, ◌∙◌, arith, false, All, List, [], ◌∷◌, ◌++◌,
}
use flowdb.Bloom.{BloomFilter}
use flowdb.Manifest.{
  Map, Manifest, SstInfo, BlockInfo, ManifestEntry, flush, delete_sst, compaction, checkpoint,
  gc_delete_sst, update_bloom, ManifestState, default_state, insert, contains, push_new, remove_sst,
  remove_all, add_all, add_blocks, set_bloom, apply_entry, apply_all, open_manifest, append,
  next_sst_id, max_sst_id,
}
use flowdb.Manifest.Maps.{
  has, Distinct, has-remove, has-insert, remove-Distinct, insert-Distinct, All-remove,
  contains-push_new, contains-filter,
}

-- The active numbers are the files of the map, each of which stands there once, under its number.
pub record IsValid (s : ManifestState) : Type 0 where
  pub active : (id : ℕ) → contains s.active_sst_ids id ≡ has s.sstables id
  pub once : Distinct s.sstables
  pub named : All (λ e. e.0 ≡ e.1.id) s.sstables

default-IsValid : IsValid default_state
unfolding default_state contains
default-IsValid = record { active = λ id. refl; once = tt; named = tt }

remove_sst-IsValid : (s : ManifestState) (id : ℕ) → IsValid s → IsValid (remove_sst s id)
unfolding remove_sst
remove_sst-IsValid s id v = record {
  active = λ j.
      ground (arith, contains-filter s.active_sst_ids id j, has-remove s.sstables id j, v.active j);
  once = remove-Distinct s.sstables id v.once;
  named = All-remove _ s.sstables id v.named;
}

remove_all-IsValid : (ids : List ℕ) (s : ManifestState) → IsValid s → IsValid (remove_all s ids)
unfolding remove_all
remove_all-IsValid [] s v = v
remove_all-IsValid (id ∷ ids) s v = remove_all-IsValid ids _ (remove_sst-IsValid s id v)

-- A file is added, whatever the other fields become.
add-IsValid :
    (s t : ManifestState) (info : SstInfo)
    → t.sstables ≡ insert s.sstables info.id info
    → t.active_sst_ids ≡ push_new s.active_sst_ids info.id
    → IsValid s
    → IsValid t
add-IsValid s t info e f v = record {
  active = λ j.
      rw (e, f)
        (ground (
          arith,
          contains-push_new s.active_sst_ids info.id j,
          has-insert s.sstables info.id info j,
          v.active j,
        ));
  once = rw e (insert-Distinct s.sstables info.id info v.once);
  named = rw e (unfold insert in (refl, All-remove _ s.sstables info.id v.named));
}

add_all-IsValid : (infos : List SstInfo) (s : ManifestState) → IsValid s → IsValid (add_all s infos)
unfolding add_all
add_all-IsValid [] s v = v
add_all-IsValid (info ∷ infos) s v = add_all-IsValid infos _ (add-IsValid s _ info refl refl v)

-- Only the maps of the files and the active numbers matter.
same-IsValid :
    (s t : ManifestState)
    → t.sstables ≡ s.sstables
    → t.active_sst_ids ≡ s.active_sst_ids
    → IsValid s
    → IsValid t
same-IsValid s t e f v = record {
  active = λ j. rw (e, f) (v.active j);
  once = rw e v.once;
  named = rw e v.named;
}

add_blocks-IsValid :
    (blocks : List (ℕ × List BlockInfo)) (s : ManifestState)
    → IsValid s
    → IsValid (add_blocks s blocks)
unfolding add_blocks
add_blocks-IsValid [] s v = v
add_blocks-IsValid ((id, blks) ∷ blocks) s v =
    add_blocks-IsValid blocks _ (same-IsValid s _ refl refl v)

has-set_bloom :
    (m : Map SstInfo) (id : ℕ) (b : BloomFilter) (j : ℕ) → has (set_bloom m id b) j ≡ has m j
unfolding set_bloom
has-set_bloom [] id b j = refl
has-set_bloom (e ∷ m) id b j = ground (arith, has-set_bloom m id b j)

set_bloom-Distinct :
    (m : Map SstInfo) (id : ℕ) (b : BloomFilter) → Distinct m → Distinct (set_bloom m id b)
unfolding set_bloom
set_bloom-Distinct [] id b h = tt
set_bloom-Distinct (e ∷ m) id b h =
    (ground (arith, has-set_bloom m id b e.0), set_bloom-Distinct m id b h.1)

set_bloom-named :
    (m : Map SstInfo) (id : ℕ) (b : BloomFilter)
    → All (λ e. e.0 ≡ e.1.id) m
    → All (λ e. e.0 ≡ e.1.id) (set_bloom m id b)
unfolding set_bloom
set_bloom-named [] id b h = tt
set_bloom-named (e ∷ m) id b h = (ground arith, set_bloom-named m id b h.1)

-- Applying any entry keeps the state well-formed: the active numbers are those of the files in the
-- map, no number stands in the map twice, and each file stands under its own number.
pub apply_entry-IsValid :
    (s : ManifestState) (entry : ManifestEntry) → IsValid s → IsValid (apply_entry s entry)
unfolding apply_entry
apply_entry-IsValid s (flush seq sst blocks) v = add-IsValid s _ sst refl refl v
apply_entry-IsValid s (delete_sst id) v = remove_sst-IsValid s id v
apply_entry-IsValid s (gc_delete_sst id) v = remove_sst-IsValid s id v
apply_entry-IsValid s (compaction removed added blocks) v =
    add_blocks-IsValid blocks _ (add_all-IsValid added _ (remove_all-IsValid removed s v))
apply_entry-IsValid s (checkpoint seq) v = same-IsValid s _ refl refl v
apply_entry-IsValid s (update_bloom id b) v = record {
  active = λ j. v.active j ∙ sym (has-set_bloom s.sstables id b j);
  once = set_bloom-Distinct s.sstables id b v.once;
  named = set_bloom-named s.sstables id b v.named;
}

apply_all-IsValid :
    (entries : List ManifestEntry) (s : ManifestState) → IsValid s → IsValid (apply_all s entries)
unfolding apply_all
apply_all-IsValid [] s v = v
apply_all-IsValid (entry ∷ entries) s v =
    apply_all-IsValid entries _ (apply_entry-IsValid s entry v)

-- Whatever entries a file holds, the state that is read from it is well-formed.
pub open_manifest-IsValid : (file : List ManifestEntry) → IsValid (open_manifest file).state
unfolding open_manifest
open_manifest-IsValid file = apply_all-IsValid file default_state default-IsValid

apply_all-snoc :
    (s : ManifestState) (entries : List ManifestEntry) (entry : ManifestEntry)
    → apply_all s (entries ++ (entry ∷ [])) ≡ apply_entry (apply_all s entries) entry
unfolding apply_all
apply_all-snoc s [] entry = refl
apply_all-snoc s (e ∷ entries) entry = apply_all-snoc (apply_entry s e) entries entry

-- Where the file holds the state, it holds the new state after an entry is appended.
pub open_manifest-append :
    (m : Manifest) (entry : ManifestEntry)
    → (open_manifest m.file).state ≡ m.state
    → (open_manifest (append m entry).file).state ≡ (append m entry).state
unfolding open_manifest append
open_manifest-append m entry h =
    apply_all-snoc default_state m.file entry ∙ ap (λ s. apply_entry s entry) h

has-above : (m : Map SstInfo) (id : ℕ) → max_sst_id m < id → has m id ≡ false
unfolding max_sst_id
has-above [] id h = refl
has-above (e ∷ m) id h = ground (arith, has-above m id)

-- The next number belongs to no file, where the greatest number in use is below 2^32 - 1.
pub has-next_sst_id :
    (m : Manifest)
    → max_sst_id m.state.sstables < 2 ^ 32 - 1
    → IsValid m.state
    → (has m.state.sstables (next_sst_id m) ≡ false)
      × (contains m.state.active_sst_ids (next_sst_id m) ≡ false)
unfolding next_sst_id
has-next_sst_id m h v =
    let fresh =
      has-above m.state.sstables ((max_sst_id m.state.sstables + 1) % 2 ^ 32) (omega arith) in
    (fresh, v.active _ ∙ fresh)
