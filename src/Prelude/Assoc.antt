-- ===== src/Prelude/Assoc.antt =====
-- An association list without repeated keys meets the contract of a hash table.
use Prim.Native.Nat.{suc}
use mathlib.Core.Path.{◌≡◌, refl}
use mathlib.Core.Logic.{◌↔◌}
use mathlib.Core.Bool.{Bool, true}
use mathlib.Core.Option.{none, some}
use mathlib.Core.List.{List, [], ◌∷◌}
use native.Mathlib.Omega.{arith}
use cluster_glue_import.Prelude.Tests.{if◌then◌else◌}
use cluster_glue_import.Prelude.Lists.{length}
use cluster_glue_import.Prelude.Table.{HashTable, assoc, discard}

module _ {K V : Type 0} (eq : K → K → Bool) where
  abbrev pub put : K → V → List (K × V) → List (K × V)
  put k v [] = (k, v) ∷ []
  put k v ((j, w) ∷ es) = if eq j k then (j, v) ∷ es else (j, w) ∷ put k v es

  abbrev pub Distinct : List (K × V) → Type 0
  Distinct [] = Unit
  Distinct ((j, w) ∷ es) = (assoc eq j es ≡ none) × Distinct es

module _ {K V : Type 0} (eq : K → K → Bool) (eq_iff : (a b : K) → (eq a b ≡ true) ↔ (a ≡ b)) where
  pub assoc-put :
      (k j : K) (v : V) (es : List (K × V))
      → assoc eq j (put eq k v es) ≡ (if eq k j then some v else assoc eq j es)
  assoc-put k j v [] = refl
  assoc-put k j v ((i, w) ∷ es) =
      ground (arith, eq_iff k j, eq_iff i k, eq_iff i j, assoc-put k j v es)

  pub put-Distinct :
      (k : K) (v : V) (es : List (K × V)) → Distinct eq es → Distinct eq (put eq k v es)
  put-Distinct k v [] d = (refl, tt)
  put-Distinct k v ((i, w) ∷ es) (h, d) =
      ground (arith, eq_iff i k, eq_iff k i, assoc-put k i v es, put-Distinct k v es d)

  pub length-put :
      (k : K) (v : V) (es : List (K × V))
      → assoc eq k es ≡ none
      → length (put eq k v es) ≡ suc (length es)
  length-put k v [] h = refl
  length-put k v ((i, w) ∷ es) h = ground (arith, length-put k v es)

  assoc-same : (i j : K) (es : List (K × V)) → i ≡ j → assoc eq i es ≡ none → assoc eq j es ≡ none
  assoc-same i j es p h = rw (← p) h

  pub assoc-discard :
      (k j : K) (es : List (K × V))
      → Distinct eq es
      → assoc eq j (discard eq k es) ≡ (if eq k j then none else assoc eq j es)
  assoc-discard k j [] d = ground arith
  assoc-discard k j ((i, w) ∷ es) (h, d) = ground (
    arith,
    eq_iff i k,
    eq_iff k j,
    eq_iff i j,
    assoc-same i j es,
    assoc-same k j es,
    assoc-discard k j es d,
  )

  pub discard-Distinct :
      (k : K) (es : List (K × V)) → Distinct eq es → Distinct eq (discard eq k es)
  discard-Distinct k [] d = tt
  discard-Distinct k ((i, w) ∷ es) (h, d) =
      ground (arith, assoc-discard k i es d, discard-Distinct k es d)

  pub length-discard :
      (k : K) (v : V) (es : List (K × V))
      → assoc eq k es ≡ some v
      → suc (length (discard eq k es)) ≡ length es
  length-discard k v [] h = cc
  length-discard k v ((i, w) ∷ es) h = ground (arith, length-discard k v es)

  abbrev pub assoc_table : HashTable K V eq
  assoc_table = record {
    Table = (es : List (K × V)) × Distinct eq es;
    new = ([], tt);
    entries = λ t. t.0;
    lookup = λ t k. assoc eq k t.0;
    insert = λ t k v. (put eq k v t.0, put-Distinct k v t.0 t.1);
    remove = λ t k. (discard eq k t.0, discard-Distinct k t.0 t.1);
    entries-new = refl;
    lookup-entries = λ t k. refl;
    lookup-insert = λ t k j v. assoc-put k j v t.0;
    lookup-remove = λ t k j. assoc-discard k j t.0 t.1;
    length-insert = λ t k v. length-put k v t.0;
    length-remove = λ t k v. length-discard k v t.0;
  }
