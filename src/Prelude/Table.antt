-- ===== src/Prelude/Table.antt =====
-- GLib's hash table, a library that the program links: what its manual promises, as an interface.
use Prim.Native.Nat.{suc}
use mathlib.Core.Path.{◌≡◌}
use mathlib.Core.Bool.{Bool}
use mathlib.Core.Option.{Option, none, some}
use mathlib.Core.List.{List, [], ◌∷◌}
use cluster_glue_import.Prelude.Tests.{if◌then◌else◌}
use cluster_glue_import.Prelude.Lists.{length}

module _ {K V : Type 0} (eq : K → K → Bool) where
  -- The value that stands behind a key in a list of pairs.
  abbrev pub assoc : K → List (K × V) → Option V
  assoc k [] = none
  assoc k ((j, v) ∷ es) = if eq j k then some v else assoc k es

  abbrev pub discard : K → List (K × V) → List (K × V)
  discard k [] = []
  discard k ((j, v) ∷ es) = if eq j k then es else (j, v) ∷ discard k es

-- `entries` lists the pairs in the order in which `g_hash_table_foreach` visits them.
pub record HashTable (K V : Type 0) (eq : K → K → Bool) : Type 1 where
  pub Table : Type 0
  pub new : Table
  pub entries : Table → List (K × V)
  pub lookup : Table → K → Option V
  pub insert : Table → K → V → Table
  pub remove : Table → K → Table
  pub entries-new : entries new ≡ []
  pub lookup-entries : (t : Table) (k : K) → lookup t k ≡ assoc eq k (entries t)
  pub lookup-insert :
      (t : Table) (k j : K) (v : V)
      → lookup (insert t k v) j ≡ (if eq k j then some v else lookup t j)
  pub lookup-remove :
      (t : Table) (k j : K) → lookup (remove t k) j ≡ (if eq k j then none else lookup t j)
  pub length-insert :
      (t : Table) (k : K) (v : V)
      → lookup t k ≡ none
      → length (entries (insert t k v)) ≡ suc (length (entries t))
  pub length-remove :
      (t : Table) (k : K) (v : V)
      → lookup t k ≡ some v
      → suc (length (entries (remove t k))) ≡ length (entries t)
