-- ===== src/Libs/Rma/Memory.antt =====
-- What UCX's remote memory promises, and a memory that keeps it: a byte for each address.
use ucx_py.Prelude.{
  ◌<◌, ℕ, ◌+◌, ◌≤◌, ◌≡◌, zero, suc, refl, ap, ap₂, List, [], ◌∷◌, ◌++◌, length, ◌⊎◌, ◌==◌,
  if◌then◌else◌, arith,
}
use ucx_py.Libs.Rma.{RemoteStore}

-- What is put is read back; a put leaves the bytes before and behind it as they were; a get has the
-- length asked for, and may be made in two.
pub record IsLawful (S : RemoteStore) : Type 0 where
  pub length-get : (s : S.State) (a n : ℕ) → length (S.get s a n) ≡ n
  pub get-append : (s : S.State) (a n m : ℕ) → S.get s a (n + m) ≡ S.get s a n ++ S.get s (a + n) m
  pub get-put :
      (s : S.State) (a : ℕ) (bytes : List ℕ) → S.get (S.put s a bytes) a (length bytes) ≡ bytes
  pub get-put_apart :
      (s : S.State) (a b n : ℕ) (bytes : List ℕ)
      → (a + n ≤ b) ⊎ (b + length bytes ≤ a)
      → S.get (S.put s b bytes) a n ≡ S.get s a n

unfoldable pub bytes_get : (ℕ → ℕ) → ℕ → ℕ → List ℕ
bytes_get s a zero = []
bytes_get s a (suc n) = s a ∷ bytes_get s (suc a) n

unfoldable pub bytes_put : (ℕ → ℕ) → ℕ → List ℕ → ℕ → ℕ
bytes_put s a [] = s
bytes_put s a (b ∷ bs) = bytes_put (λ x. if x == a then b else s x) (suc a) bs

abbrev pub byte_store : RemoteStore
byte_store = record { State = ℕ → ℕ; get = bytes_get; put = bytes_put }

put_elsewhere :
    (s : ℕ → ℕ) (a : ℕ) (bytes : List ℕ) (x : ℕ)
    → (x < a) ⊎ (a + length bytes ≤ x)
    → bytes_put s a bytes x ≡ s x
unfolding bytes_put
put_elsewhere s a [] x h = refl
put_elsewhere s a (b ∷ bs) x h =
    let later = put_elsewhere (λ y. if y == a then b else s y) (suc a) bs x in ground (arith, later)

get_agree :
    (s t : ℕ → ℕ) (a n : ℕ)
    → ((x : ℕ) → a ≤ x → x < a + n → s x ≡ t x)
    → bytes_get s a n ≡ bytes_get t a n
unfolding bytes_get
get_agree s t a zero h = refl
get_agree s t a (suc n) h =
    ap₂ ◌∷◌ (h a (omega arith) (omega arith))
      (get_agree s t (suc a) n (λ x lo hi. h x (omega (arith, lo)) (omega (arith, hi))))

length-bytes_get : (s : ℕ → ℕ) (a n : ℕ) → length (bytes_get s a n) ≡ n
unfolding bytes_get
length-bytes_get s a zero = refl
length-bytes_get s a (suc n) = ap suc (length-bytes_get s (suc a) n)

bytes_get-append :
    (s : ℕ → ℕ) (a n m : ℕ) → bytes_get s a (n + m) ≡ bytes_get s a n ++ bytes_get s (a + n) m
unfolding bytes_get
bytes_get-append s a zero m = grind arith
bytes_get-append s a (suc n) m = grind (arith, bytes_get-append s (suc a) n m)

bytes_get-put :
    (s : ℕ → ℕ) (a : ℕ) (bytes : List ℕ) → bytes_get (bytes_put s a bytes) a (length bytes) ≡ bytes
unfolding bytes_get bytes_put
bytes_get-put s a [] = refl
bytes_get-put s a (b ∷ bs) =
    let s' : ℕ → ℕ = λ y. if y == a then b else s y in
    ap₂ ◌∷◌ (ground (arith, put_elsewhere s' (suc a) bs a)) (bytes_get-put s' (suc a) bs)

bytes_get-put_apart :
    (s : ℕ → ℕ) (a b n : ℕ) (bytes : List ℕ)
    → (a + n ≤ b) ⊎ (b + length bytes ≤ a)
    → bytes_get (bytes_put s b bytes) a n ≡ bytes_get s a n
bytes_get-put_apart s a b n bytes h =
    get_agree (bytes_put s b bytes) s a n
      (λ (x : ℕ) (lo : a ≤ x) (hi : x < a + n). put_elsewhere s b bytes x (ground arith))

pub byte_store-IsLawful : IsLawful byte_store
byte_store-IsLawful = record {
  length-get = length-bytes_get;
  get-append = bytes_get-append;
  get-put = bytes_get-put;
  get-put_apart = bytes_get-put_apart;
}
