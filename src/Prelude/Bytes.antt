-- ===== src/Prelude/Bytes.antt =====
-- Byte arrays as functions of the index, and little-endian loads and stores of several bytes.
use Prim.Native.Nat.{ℕ, zero, suc, ◌+◌, ◌*◌, ◌/◌, ◌%◌, ◌^◌, ◌≤◌, ◌<◌}
use mathlib.Core.Path.{◌≡◌, refl, ap, ◌∙◌}
use mathlib.Core.Logic.{◌⊎◌, inl}
use native.Mathlib.Omega.{arith}
use native.Mathlib.Nat.{
  pow-succ', div-add-mod, mod-lt, mod-eq_of_lt, add-mul-mod_self_left, one-le-pow,
}
use drob.Prelude.Tests.{◌==◌, if◌then◌else◌}

abbrev pub Bytes : Type 0
Bytes = ℕ → ℕ

abbrev pub update {ℓ} : {A : Type ℓ} → (ℕ → A) → ℕ → A → ℕ → A
update f i v j = if j == i then v else f j

-- `*(uintN_t *)&d[i] = v` for a width of `n` bytes
unfoldable pub store : ℕ → ℕ → ℕ → Bytes → Bytes
store zero i v d = d
store (suc n) i v d = store n (suc i) (v / 256) (update d i (v % 256))

-- `*(uintN_t *)&d[i]`
unfoldable pub load : ℕ → ℕ → Bytes → ℕ
load zero i d = 0
load (suc n) i d = d i + 256 * load n (suc i) d

-- A store leaves the bytes outside its range.
pub store_outside : (n i v j : ℕ) (d : Bytes) → (j < i) ⊎ (i + n ≤ j) → store n i v d j ≡ d j
unfolding store
store_outside zero i v j d h = refl
store_outside (suc n) i v j d h =
    ground (arith, store_outside n (suc i) (v / 256) j (update d i (v % 256)))

-- Two arrays agree where the same value is stored into both.
pub store_inside :
    (n i v j : ℕ) (d e : Bytes) → i ≤ j → j < i + n → store n i v d j ≡ store n i v e j
unfolding store
store_inside zero i v j d e h k = absurd (omega arith)
store_inside (suc n) i v j d e h k = ground (
  arith,
  store_inside n (suc i) (v / 256) j (update d i (v % 256)) (update e i (v % 256)),
  store_outside n (suc i) (v / 256) j (update d i (v % 256)),
  store_outside n (suc i) (v / 256) j (update e i (v % 256)),
)

pub load_congr :
    (n i : ℕ) (d e : Bytes) → ((j : ℕ) → i ≤ j → j < i + n → d j ≡ e j) → load n i d ≡ load n i e
unfolding load
load_congr zero i d e h = refl
load_congr (suc n) i d e h =
    let a : d i ≡ e i = h i (omega arith) (omega arith) in
    let b : load n (suc i) d ≡ load n (suc i) e =
      load_congr n (suc i) d e (λ j p q. h j (omega arith) (omega arith)) in
    omega arith

mod-mul_step : (v k : ℕ) → 0 < k → v % (256 * k) ≡ v % 256 + 256 * (v / 256 % k)
mod-mul_step v k h =
    let b = v / 256 % k in
    let a = v / 256 / k in
    let r = v % 256 in
    let split : v ≡ (r + 256 * b) + 256 * k * a =
      omega (arith, div-add-mod (v / 256) k, ap (λ (t : ℕ). 256 * t) (div-add-mod (v / 256) k)) in
    ap (λ (t : ℕ). t % (256 * k)) split
    ∙ add-mul-mod_self_left (r + 256 * b) (256 * k) a
    ∙ mod-eq_of_lt (omega (arith, mod-lt (v / 256) h))

-- What a store of `n` bytes leaves there is the value modulo 2 ^ (8 * n).
pub load-store : (n i v : ℕ) (d : Bytes) → load n i (store n i v d) ≡ v % 256 ^ n
unfolding load store
load-store zero i v d = omega arith
load-store (suc n) i v d = ground (
  arith,
  store_outside n (suc i) (v / 256) i (update d i (v % 256)) (inl (omega arith)),
  load-store n (suc i) (v / 256) (update d i (v % 256)),
  pow-succ' 256 n,
  mod-mul_step v (256 ^ n) (one-le-pow n 256 (omega arith)),
)

-- Only the low bytes of the value are stored.
pub store_mod : (n m i v : ℕ) (d : Bytes) → n ≤ m → store n i (v % 256 ^ m) d ≡ store n i v d
unfolding store
store_mod zero m i v d h = refl
store_mod (suc n) zero i v d h = absurd (omega arith)
store_mod (suc n) (suc m) i v d h =
    let e = mod-mul_step v (256 ^ m) (one-le-pow m 256 (omega arith)) in
    let p = pow-succ' 256 m in
    let hi : v % 256 ^ suc m / 256 ≡ v / 256 % 256 ^ m = rw p (omega (arith, e)) in
    let lo : v % 256 ^ suc m % 256 ≡ v % 256 = rw p (omega (arith, e)) in
    rw hi (rw lo (store_mod n m (suc i) (v / 256) (update d i (v % 256)) (omega arith)))
