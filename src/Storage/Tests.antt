-- ===== src/Storage/Tests.antt =====
-- The properties of the storage files, applied to the sample system.
use flume_ascend_host_bypass.Prelude.{ℕ, ◌≡◌, refl, false, List, [], ◌∷◌, take, drop, arith}
use flume_ascend_host_bypass.Storage.System.{path}
use flume_ascend_host_bypass.Storage.PosixFile.{
  bytes, contains, has_parent, strip_slash, resolve_path, read, read_loop,
}
use flume_ascend_host_bypass.Storage.PosixFile.Confinement.{Inside, resolve_path-Inside}
use flume_ascend_host_bypass.Storage.PosixFile.Range.{read-range, read_total}
use flume_ascend_host_bypass.Storage.Samples.{
  system, root, name, content, ask-Chunk, preads-IsPread,
}

abbrev full : List ℕ
full = 47 ∷ 115 ∷ 47 ∷ 102 ∷ []

resolve_path-Inside_example :
    (base : List ℕ) × (system.weakly_canonical root ≡ path base)
    × (system.weakly_canonical (system.join root name) ≡ path full)
    × Inside (strip_slash base) full
    × (contains 0 name ≡ false)
    × (system.is_absolute name ≡ false)
    × (has_parent (system.components name) ≡ false)
unfolding resolve_path
resolve_path-Inside_example = resolve_path-Inside system root name refl

read-range_example : 12 ∷ 13 ∷ 14 ∷ 15 ∷ [] ≡ take 9 (drop 2 content)
unfolding read read_loop
read-range_example = read-range system content 2 9 preads-IsPread (omega arith) refl

read_total_example : (out : List ℕ) × (read system 1 3 ≡ bytes out)
read_total_example =
    read_total system content 1 3 refl (ask-Chunk, (ask-Chunk, (ask-Chunk, (ask-Chunk, tt))))
      (omega arith)
