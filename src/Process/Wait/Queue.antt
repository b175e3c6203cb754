-- ===== src/Process/Wait/Queue.antt =====
-- A wait queue as the list of the waiting processes, the first one first.
use openkernel.Base.{ℕ, ◌≡◌, ◌≢◌, refl, sym, ap, ◌∙◌, Option, none, some, List, [], ◌∷◌, ◌++◌}
use mathlib.Core.Path.{subst}
use openkernel.Process.{Pcb, WaitQueue}

abbrev pub All {ℓ κ} : {A : Type ℓ} → (A → Type κ) → List A → Type κ
All P [] = Unit
All P (x ∷ xs) = P x × All P xs

abbrev pub Distinct : List ℕ → Type 0
Distinct [] = Unit
Distinct (x ∷ xs) = All (λ y. x ≢ y) xs × Distinct xs

abbrev pub first : List ℕ → Option ℕ
first [] = none
first (x ∷ xs) = some x

abbrev pub last : List ℕ → Option ℕ
last [] = none
last (x ∷ []) = some x
last (x ∷ y ∷ xs) = last (y ∷ xs)

-- Each process points to the one after it, and the last one to none.
abbrev pub Linked : (ℕ → Pcb) → List ℕ → Type 0
Linked pcbs [] = Unit
Linked pcbs (x ∷ xs) = ((pcbs x).next ≡ first xs) × Linked pcbs xs

pub record IsQueue (pcbs : ℕ → Pcb) (wq : WaitQueue) (xs : List ℕ) : Type 0 where
  pub head : wq.head ≡ first xs
  pub tail : wq.tail ≡ last xs
  pub linked : Linked pcbs xs
  pub distinct : Distinct xs

pub Linked-same :
    (a b : ℕ → Pcb) (xs : List ℕ)
    → All (λ x. (b x).next ≡ (a x).next) xs
    → Linked a xs
    → Linked b xs
Linked-same a b [] same h = h
Linked-same a b (x ∷ xs) (e, same) (n, h) = (e ∙ n, Linked-same a b xs same h)

pub All-map {ℓ κ μ} :
    {A : Type ℓ} (P : A → Type κ) (Q : A → Type μ) (xs : List A)
    → ((x : A) → P x → Q x)
    → All P xs
    → All Q xs
All-map P Q [] f h = tt
All-map P Q (x ∷ xs) f (p, h) = (f x p, All-map P Q xs f h)

All-append {ℓ κ} :
    {A : Type ℓ} (P : A → Type κ) (xs ys : List A) → All P xs → All P ys → All P (xs ++ ys)
All-append P [] ys h h' = h'
All-append P (x ∷ xs) ys (p, h) h' = (p, All-append P xs ys h h')

-- A process that is not in the queue goes to its end.
pub Distinct-append :
    (xs : List ℕ) (c : ℕ) → All (λ y. c ≢ y) xs → Distinct xs → Distinct (xs ++ (c ∷ []))
Distinct-append [] c h d = (tt, tt)
Distinct-append (x ∷ xs) c (ne, h) (away, d) =
    (All-append (λ y. x ≢ y) xs (c ∷ []) away (λ e. ne (sym e), tt), Distinct-append xs c h d)

pub last-append : (xs : List ℕ) (c : ℕ) → last (xs ++ (c ∷ [])) ≡ some c
last-append [] c = refl
last-append (x ∷ []) c = refl
last-append (x ∷ y ∷ xs) c = last-append (y ∷ xs) c

pub last-All {κ} :
    (P : ℕ → Type κ) (y : ℕ) (xs : List ℕ) (t : ℕ) → last (y ∷ xs) ≡ some t → All P (y ∷ xs) → P t
last-All P y [] t e h = let y_is : y ≡ t = cc in subst P y_is h.0
last-All P y (z ∷ xs) t e h = last-All P z xs t e h.1

pub last-some : (x : ℕ) (xs : List ℕ) → (t : ℕ) × (last (x ∷ xs) ≡ some t)
last-some x [] = (x, refl)
last-some x (y ∷ xs) = last-some y xs

-- Linking the last process to a new one behind it.
pub Linked-append :
    (a b : ℕ → Pcb) (x : ℕ) (xs : List ℕ) (c t : ℕ)
    → last (x ∷ xs) ≡ some t
    → Distinct (x ∷ xs)
    → ((i : ℕ) → i ≢ t → i ≢ c → (b i).next ≡ (a i).next)
    → All (λ y. c ≢ y) (x ∷ xs)
    → (b t).next ≡ some c
    → (b c).next ≡ none
    → Linked a (x ∷ xs)
    → Linked b ((x ∷ xs) ++ (c ∷ []))
Linked-append a b x [] c t at d same away bt bc h =
    let x_is : x ≡ t = cc in (ap (λ i. (b i).next) x_is ∙ bt, (bc, tt))
Linked-append a b x (y ∷ xs) c t at (apart, d) same (ne, away) bt bc (n, h) =
    let x_ne : x ≢ t = last-All (λ z. x ≢ z) y xs t at apart in
    (same x x_ne (λ e. ne (sym e)) ∙ n, Linked-append a b y xs c t at d same away bt bc h)

All-always : (P : ℕ → Type 0) (xs : List ℕ) → ((x : ℕ) → P x) → All P xs
All-always P [] f = tt
All-always P (x ∷ xs) f = (f x, All-always P xs f)

-- Only the `next` pointers matter.
pub IsQueue-same :
    (a b : ℕ → Pcb) (wq : WaitQueue) (xs : List ℕ)
    → ((i : ℕ) → (b i).next ≡ (a i).next)
    → IsQueue a wq xs
    → IsQueue b wq xs
IsQueue-same a b wq xs same q = record {
  head = q.head;
  tail = q.tail;
  linked = Linked-same a b xs (All-always (λ i. (b i).next ≡ (a i).next) xs same) q.linked;
  distinct = q.distinct;
}
