-- ===== src/Proctrack/Signals.antt =====
-- Lists of effects and of entries of a kill sequence (lib/clplumbing/proctrack.c).
use cluster_glue_import.Prelude.{
  ℕ, zero, suc, ◌≡◌, ◌≢◌, ◌⊎◌, inl, inr, refl, ap, List, [], ◌∷◌, ◌++◌, some, get_elem?, drop,
  arith,
}
use cluster_glue_import.Lrmd.Perform.{Kill}
use cluster_glue_import.Proctrack.{
  Effect, signal, timeout_add, timeout_remove, procregistered, procdied, Killed, sent, esrch,
  failed,
}

abbrev pub signals : List Effect → List ℕ
signals [] = []
signals (signal group pid n ∷ es) = n ∷ signals es
signals (timeout_add ms pid ∷ es) = signals es
signals (timeout_remove id ∷ es) = signals es
signals (procregistered pid ∷ es) = signals es
signals (procdied pid n code report ∷ es) = signals es

pub signals-append : (es fs : List Effect) → signals (es ++ fs) ≡ signals es ++ signals fs
signals-append [] fs = refl
signals-append (signal group pid n ∷ es) fs = ap (λ l. n ∷ l) (signals-append es fs)
signals-append (timeout_add ms pid ∷ es) fs = signals-append es fs
signals-append (timeout_remove id ∷ es) fs = signals-append es fs
signals-append (procregistered pid ∷ es) fs = signals-append es fs
signals-append (procdied pid n code report ∷ es) fs = signals-append es fs

pub drop-suc :
    (xs ys : List Kill) (n : ℕ) (x : Kill)
    → drop n xs ≡ x ∷ ys
    → (get_elem? xs n ≡ some x) × (drop (suc n) xs ≡ ys)
drop-suc [] ys zero x e = ground arith
drop-suc [] ys (suc n) x e = ground arith
drop-suc (z ∷ xs) ys zero x e = ground arith
drop-suc (z ∷ xs) ys (suc n) x e = drop-suc xs ys n x e

-- What stands behind an entry that is not the last.
pub following :
    (ks : List Kill) (end' : Kill) → (n : Kill) × (rest : List Kill) × (ks ++ end' ∷ [] ≡ n ∷ rest)
following [] end' = (end', [], refl)
following (k ∷ ks) end' = (k, ks ++ end' ∷ [], refl)

pub esrch_or : (x : Killed) → (x ≡ esrch) ⊎ (x ≢ esrch)
esrch_or sent = inr (λ e. absurd (ground (arith, e)))
esrch_or esrch = inl refl
esrch_or failed = inr (λ e. absurd (ground (arith, e)))
