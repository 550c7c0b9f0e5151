-- ===== src/Node/Gso/Chunks.antt =====
-- Datagrams of one size and the pieces of their bytes.
use fluxpeer.Prelude.{
  ℕ, zero, suc, ◌*◌, ◌<◌, ◌≤◌, ◌≡◌, refl, ap, sym, ◌∙◌, false, List, [], ◌∷◌, ◌++◌, ◌==◌, length,
  All, arith, length-append, take-append_of, drop-append_of,
}
use mathlib.Core.List.{append_assoc}
use fluxpeer.Node.Gso.{chunks_go, chunks}

-- The bytes of datagrams, one after the other.
unfoldable pub concat : List (List ℕ) → List ℕ
concat [] = []
concat (p ∷ ps) = p ++ concat ps

pub concat-append : (ps qs : List (List ℕ)) → concat (ps ++ qs) ≡ concat ps ++ concat qs
unfolding concat
concat-append [] qs = refl
concat-append (p ∷ ps) qs =
    ap (λ z. p ++ z) (concat-append ps qs) ∙ sym (append_assoc p (concat ps) (concat qs))

abbrev pub Sized : ℕ → List (List ℕ) → Type 0
Sized n = All (λ p. length p ≡ n)

pub length-concat : (n : ℕ) (ps : List (List ℕ)) → Sized n ps → length (concat ps) ≡ length ps * n
unfolding concat
length-concat n [] h = omega arith
length-concat n (p ∷ ps) h = omega (arith, length-append p (concat ps), length-concat n ps h.1, h.0)

pub chunks_go-concat :
    (k n : ℕ) (ps : List (List ℕ))
    → 0 < n
    → length ps ≤ k
    → Sized n ps
    → chunks_go k n (concat ps) ≡ ps
unfolding chunks_go concat
chunks_go-concat zero n [] pos enough h = refl
chunks_go-concat zero n (p ∷ ps) pos enough h = absurd (omega arith)
chunks_go-concat (suc k) n [] pos enough h = refl
chunks_go-concat (suc k) n (p ∷ ps) pos enough h =
    let some_bytes : (length (p ++ concat ps) == 0) ≡ false =
      ground (arith, length-append p (concat ps)) in
    rw
      (
        some_bytes,
        take-append_of n p (concat ps) h.0,
        drop-append_of n p (concat ps) h.0,
        chunks_go-concat k n ps pos (omega arith) h.1,
      )
      refl

-- Datagrams of one size that is not 0 are the pieces of their bytes.
pub chunks-concat : (n : ℕ) (ps : List (List ℕ)) → 0 < n → Sized n ps → chunks n (concat ps) ≡ ps
unfolding chunks
chunks-concat n ps pos h =
    chunks_go-concat (length (concat ps)) n ps pos (grind (arith, length-concat n ps h)) h
