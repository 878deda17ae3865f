-- ===== src/Proxy/Ensures.antt =====
-- Reasoning about the calls of the proxy, hw5/proxy.c, that may fail: what holds of a result, if there is one.
use cmpe156_network_programm.Prelude.{Bool, true, false, if◌then◌else◌, Result, ok, fault, ◌>>=◌}

abbrev pub Ensures {ℓ κ} : {A : Type ℓ} → (A → Type κ) → Result A → Type κ
Ensures P (ok a) = P a
Ensures P (fault e) = Unit

pub Ensures-bind {ℓ κ μ} :
    {A : Type ℓ} {B : Type κ} (P : B → Type μ) (m : Result A) (f : A → Result B)
    → ((a : A) → Ensures P (f a))
    → Ensures P (m >>= f)
Ensures-bind P (ok a) f h = h a
Ensures-bind P (fault e) f h = tt

pub Ensures-bind_from {ℓ κ μ ν} :
    {A : Type ℓ} {B : Type κ} (Q : A → Type ν) (P : B → Type μ) (m : Result A) (f : A → Result B)
    → Ensures Q m
    → ((a : A) → Q a → Ensures P (f a))
    → Ensures P (m >>= f)
Ensures-bind_from Q P (ok a) f q h = h a q
Ensures-bind_from Q P (fault e) f q h = tt

pub Ensures-weaken {ℓ κ μ} :
    {A : Type ℓ} (P : A → Type κ) (Q : A → Type μ) (m : Result A)
    → Ensures P m
    → ((a : A) → P a → Q a)
    → Ensures Q m
Ensures-weaken P Q (ok a) p h = h a p
Ensures-weaken P Q (fault e) p h = tt

pub Ensures-if {ℓ κ} :
    {A : Type ℓ} (P : A → Type κ) (b : Bool) (m n : Result A)
    → Ensures P m
    → Ensures P n
    → Ensures P (if b then m else n)
Ensures-if P true m n p q = p
Ensures-if P false m n p q = q
