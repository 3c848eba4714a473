-- ===== src/Gc/Tests.antt =====
-- The theorem about the collection at a concrete manifest.
use flowdb.Base.{ℕ, ◌≡◌, refl, none, List, [], ◌∷◌}
use flowdb.Base.Int.{pos}
use flowdb.Manifest.{SstInfo, ManifestEntry, flush, Manifest, open_manifest, get}
use flowdb.Manifest.Apply.{IsValid, open_manifest-IsValid}
use flowdb.Gc.{run}
use flowdb.Gc.Live.{unexpired, run-unexpired}

abbrev info : ℕ → ℕ → SstInfo
info id max_expire = record {
  id = id;
  records = 10;
  bytes = 400;
  min_ts = pos 1;
  max_ts = pos 9;
  min_expire = pos 10;
  max_expire = pos max_expire;
  bloom = none;
}

abbrev file : List ManifestEntry
file = flush 5 (info 1 20) [] ∷ flush 9 (info 2 40) [] ∷ []

abbrev manifest : Manifest
manifest = record { file = file; state = (open_manifest file).state; entry_count = 2 }

run-unexpired_example :
    (get (run manifest (pos 30)).1.state.sstables 1
      ≡ unexpired (pos 30) (get manifest.state.sstables 1))
    × IsValid (run manifest (pos 30)).1.state
    × ((open_manifest (run manifest (pos 30)).1.file).state ≡ (run manifest (pos 30)).1.state)
run-unexpired_example = run-unexpired manifest (pos 30) 1 (open_manifest-IsValid file) refl
