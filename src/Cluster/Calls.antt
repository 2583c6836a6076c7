-- ===== src/Cluster/Calls.antt =====
-- Code that makes calls: it takes the calls so far and returns them with its own, and a value.
use kcover.Shared.{List, ◌∷◌, Bool, false, if◌then◌else◌, true}
use kcover.Cluster.{Call}

abbrev pub Run {ℓ} : Type ℓ → Type ℓ
Run A = List Call → List Call × A

infixl 5 ◌>>=◌ ◌>>◌
abbrev pub ◌>>=◌ {ℓ κ} : {A : Type ℓ} {B : Type κ} → Run A → (A → Run B) → Run B
(m >>= k) before = let (after, a) = m before in k a after

abbrev pub ◌>>◌ {ℓ} : {B : Type ℓ} → Run (Unit {0}) → Run B → Run B
m >> k = m >>= λ _. k

abbrev pub give {ℓ} : {A : Type ℓ} → A → Run A
give a before = (before, a)

-- The call is made, and the answer depends on the calls before it.
abbrev pub ask {ℓ} : {A : Type ℓ} → Call → (List Call → A) → Run A
ask c answer before = (c ∷ before, answer before)

-- What holds of the calls before a run holds of the calls after it.
unfoldable pub Keeps {ℓ κ} : {A : Type ℓ} → (List Call → Type κ) → Run A → Type κ
Keeps P m = (before : List Call) → P before → P (m before).0

pub Keeps->>= {ℓ κ μ} :
    {A : Type ℓ} {B : Type κ} (P : List Call → Type μ) (m : Run A) (k : A → Run B)
    → Keeps P m
    → ((a : A) → Keeps P (k a))
    → Keeps P (m >>= k)
unfolding Keeps
Keeps->>= P m k hm hk before p = hk (m before).1 (m before).0 (hm before p)

pub Keeps-give {ℓ κ} : {A : Type ℓ} (P : List Call → Type κ) (a : A) → Keeps P (give a)
unfolding Keeps
Keeps-give P a before p = p

pub Keeps-if {ℓ κ} :
    {A : Type ℓ} (P : List Call → Type κ) (b : Bool) (m n : Run A)
    → Keeps P m
    → Keeps P n
    → Keeps P (if b then m else n)
Keeps-if P true m n hm hn = hm
Keeps-if P false m n hm hn = hn
