-- ===== src/Gc/Live.antt =====
-- The collection removes the expired files and no other.
use flowdb.Base.{
  ℕ, ◌≡◌, refl, ◌∙◌, sym, arith, true, false, ◌==◌, ==_iff, Bool-cases, inl, inr, if◌then◌else◌,
  Option, none, some, List, [], ◌∷◌,
}
use flowdb.Base.Int.{ℤ, ltb_ℤ}
use flowdb.Manifest.{
  Map, SstInfo, get, contains, Manifest, append, apply_entry, remove_sst, gc_delete_sst,
  open_manifest,
}
use flowdb.Manifest.Maps.{Distinct, has, get-remove}
use flowdb.Manifest.Apply.{IsValid, apply_entry-IsValid, open_manifest-append}
use flowdb.Manifest.Snapshot.{get-cons}
use flowdb.Gc.{to_delete, delete_all, run}

-- A file that is there and not expired.
abbrev pub unexpired : ℤ → Option SstInfo → Option SstInfo
unexpired now_us none = none
unexpired now_us (some info) = if ltb_ℤ info.max_expire now_us then none else some info

get-delete_all :
    (ids : List ℕ) (mf : Manifest) (id : ℕ)
    → get (delete_all mf ids).state.sstables id
      ≡ (if contains ids id then none else get mf.state.sstables id)
unfolding delete_all contains append apply_entry remove_sst
get-delete_all [] mf id = refl
get-delete_all (j ∷ ids) mf id =
    ground (
      arith,
      get-delete_all ids (append mf (gc_delete_sst j)) id,
      get-remove mf.state.sstables j id,
    )

contains-to_delete_none :
    (m : Map SstInfo) (now_us : ℤ) (id : ℕ)
    → has m id ≡ false
    → contains (to_delete m now_us) id ≡ false
unfolding to_delete contains
contains-to_delete_none [] now_us id h = refl
contains-to_delete_none (e ∷ m) now_us id h = ground (arith, contains-to_delete_none m now_us id)

contains-to_delete :
    (e : ℕ × SstInfo) (m : Map SstInfo) (now_us : ℤ) (id : ℕ)
    → contains (to_delete (e ∷ m) now_us) id ≡ (
        if ltb_ℤ e.1.max_expire now_us
        then (if e.0 == id then true else contains (to_delete m now_us) id)
        else contains (to_delete m now_us) id)
unfolding to_delete contains
contains-to_delete e m now_us id = elim (Bool-cases (ltb_ℤ e.1.max_expire now_us)) [
  | inl x ↦ rw x
  | inr x ↦ rw x
]

delete-get :
    (m : Map SstInfo) (now_us : ℤ) (id : ℕ)
    → Distinct m
    → (if contains (to_delete m now_us) id then none else get m id) ≡ unexpired now_us (get m id)
delete-get [] now_us id d = unfold to_delete contains get in refl
delete-get (e ∷ m) now_us id d =
    rw (contains-to_delete e m now_us id, get-cons e m id)
      (elim (Bool-cases (e.0 == id)) [
        | inl s ↦
            let gone : has m id ≡ false = rw (sym ((==_iff e.0 id).0 s)) d.0 in
            ground (arith, s, contains-to_delete_none m now_us id gone)
        | inr s ↦ ground (arith, s, delete-get m now_us id d.1)
      ])

delete_all-kept :
    (ids : List ℕ) (mf : Manifest)
    → IsValid mf.state
    → (open_manifest mf.file).state ≡ mf.state
    → IsValid (delete_all mf ids).state
      × ((open_manifest (delete_all mf ids).file).state ≡ (delete_all mf ids).state)
unfolding delete_all
delete_all-kept [] mf v h = (v, h)
delete_all-kept (j ∷ ids) mf v h =
    delete_all-kept ids (append mf (gc_delete_sst j))
      (unfold append in apply_entry-IsValid mf.state (gc_delete_sst j) v)
      (open_manifest-append mf (gc_delete_sst j) h)

-- Where the manifest's state is well-formed and its file holds it, this is so after a collection,
-- which takes away every file that is expired as a whole and keeps every other one unchanged.
pub run-unexpired :
    (mf : Manifest) (now_us : ℤ) (id : ℕ)
    → IsValid mf.state
    → (open_manifest mf.file).state ≡ mf.state
    → (get (run mf now_us).1.state.sstables id ≡ unexpired now_us (get mf.state.sstables id))
      × IsValid (run mf now_us).1.state
      × ((open_manifest (run mf now_us).1.file).state ≡ (run mf now_us).1.state)
unfolding run
run-unexpired mf now_us id v h =
    let ids = to_delete mf.state.sstables now_us in
    let (valid, same) = delete_all-kept ids mf v h in
    (get-delete_all ids mf id ∙ delete-get mf.state.sstables now_us id v.once, valid, same)
