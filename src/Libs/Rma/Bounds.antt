-- ===== src/Libs/Rma/Bounds.antt =====
-- What RemoteMemory's tests keep, and what they let through.
use mathlib.Core.List.{append_assoc}
use mathlib.Core.Path.{subst, sym}
use ucx_py.Prelude.{
  length-take, length-take_le, length-drop, take-append_le, take-append_ge, drop-append_le, ◌∙◌,
  drop-append_le, take-append_le, take-append_ge, length-take_le, ℕ, ◌+◌, ◌-◌, ◌≤◌, ◌<◌, ◌≡◌, zero,
  suc, refl, ap₂, List, ◌++◌, length, take, drop, ◌⊎◌, ltb, ◌==◌, if◌then◌else◌, arith, Bool, ◌&&◌,
  ◌-◌, drop-append_length, take-append_length, length-append,
}
use ucx_py.Prelude.Int.{pos, negsuc}
use ucx_py.Exceptions.{Exn, Result, ok, err}
use ucx_py.Libs.Arr.{word_mod}
use ucx_py.Prelude.{◌^◌}
use ucx_py.Libs.Transfer.{send}
use ucx_py.Libs.Transfer.Answers.{Course, answered, transfer-answered}
use ucx_py.Libs.Rma.{
  rma_nb, RemoteStore, RemoteMemory, Local, to_word, rma_range, ucp_put, ucp_get, put_nbi,
}
use ucx_py.Libs.Rma.Memory.{IsLawful}

-- The number of bytes that a size asks for.
abbrev pub asked : ℕ → ℕ → ℕ
asked nbytes size = if size == 0 then nbytes else size

pub rma_range_lem :
    (r : RemoteMemory) (nbytes size offset : ℕ)
    → let n = asked nbytes size in
      rma_range r nbytes (pos size) (pos offset) ≡ (
        if ltb r.length (n + offset)
        then err Exn.index_error
        else if ltb n word_mod && ltb (r.base + offset) word_mod
        then ok (n, r.base + offset)
        else err Exn.overflow_error)
unfolding rma_range to_word
rma_range_lem r nbytes zero offset = ground arith
rma_range_lem r nbytes (suc size) offset = ground arith

-- A list in three parts, cut behind the second.
cut :
    (xs ys zs : List ℕ) (m : ℕ)
    → m ≡ length xs + length ys
    → (take m (xs ++ (ys ++ zs)) ≡ xs ++ ys) × (drop m (xs ++ (ys ++ zs)) ≡ zs)
cut xs ys zs m h =
    let e : m ≡ length (xs ++ ys) = h ∙ sym (length-append xs ys) in
    rw (sym (append_assoc xs ys zs), e)
      (take-append_length (xs ++ ys) zs, drop-append_length (xs ++ ys) zs)

module _ (S : RemoteStore) (L : IsLawful S) where
  pub ucp_put-apart :
      (status : Result Bool) (n d : ℕ) (l : Local) (s : S.State) (a k : ℕ)
      → (a + k ≤ d) ⊎ (d + n ≤ a)
      → S.get (ucp_put S status n d l s).1 a k ≡ S.get s a k
  unfolding ucp_put
  ucp_put-apart (err x) n d l s a k h = refl
  ucp_put-apart (ok done) n d l s a k h =
      L.get-put_apart s a d k (take n (l.buffer ++ l.beyond))
        (ground (arith, length-take_le n (l.buffer ++ l.beyond)))

  -- Over a lawful memory, whatever UCX answers, `put_nbi` of any natural size at any natural offset
  -- leaves every byte before and behind the region as it was.
  pub put_nbi-window :
      (status : Result Bool) (r : RemoteMemory) (l : Local) (size offset : ℕ) (s : S.State)
      (a k : ℕ)
      → (a + k ≤ r.base) ⊎ (r.base + r.length ≤ a)
      → S.get (put_nbi S status r l (pos size) (pos offset) s).1 a k ≡ S.get s a k
  unfolding put_nbi
  put_nbi-window status r l size offset s a k h =
      let n = asked (length l.buffer) size in
      rw (put_nbi, rma_range_lem r (length l.buffer) size offset)
        (ground (arith, ucp_put-apart status n (r.base + offset) l s a k))

  -- A negative offset is not refused: `put_nbi` writes to an address before the region.
  pub put_nbi-before :
      (done : Bool) (r : RemoteMemory) (l : Local) (size k : ℕ) (s : S.State)
      → k < r.base
      → r.base < word_mod
      → asked (length l.buffer) size ≤ r.length + suc k
      → asked (length l.buffer) size < word_mod
      → put_nbi S (ok done) r l (pos size) (negsuc k) s ≡ (
        ok done,
        S.put s (r.base - suc k) (take (asked (length l.buffer) size) (l.buffer ++ l.beyond)),
      )
  unfolding put_nbi rma_range to_word ucp_put
  put_nbi-before done r l zero k s below word fits small = ground arith
  put_nbi-before done r l (suc size) k s below word fits small = ground arith

  -- A size that is larger than the local buffer but fits the region, which fits 64 bits, is not
  -- refused: `put_nbi` sends the buffer and the bytes that lie behind it in the local memory.
  pub put_nbi-beyond :
      (done : Bool) (r : RemoteMemory) (l : Local) (size offset : ℕ) (s : S.State)
      → length l.buffer < size
      → offset + size ≤ r.length
      → r.base + r.length < word_mod
      → put_nbi S (ok done) r l (pos size) (pos offset) s
        ≡ (ok done, S.put s (r.base + offset) (l.buffer ++ take (size - length l.buffer) l.beyond))
  unfolding put_nbi ucp_put
  put_nbi-beyond done r l (suc size) offset s more fits word =
      rw (put_nbi, rma_range_lem r (length l.buffer) (suc size) offset)
        (ground (arith, take-append_ge (suc size) l.buffer l.beyond (omega (arith, more))))
  put_nbi-beyond done r l zero offset s more fits word = ground arith

  -- The bytes that a get brings after a put of as many.
  pub ucp_get-put :
      (done done' : Bool) (n d : ℕ) (l l' : Local) (s : S.State)
      → n ≤ length l.buffer
      → n ≤ length l'.buffer
      → ucp_get S (ok done') n d l' (ucp_put S (ok done) n d l s).1
        ≡ (ok done', record { buffer = take n l.buffer ++ drop n l'.buffer; beyond = l'.beyond })
  unfolding ucp_put ucp_get
  ucp_get-put done done' n d l l' s h h' =
      let bytes = take n l.buffer in
      let size : length bytes ≡ n = length-take n l.buffer h in
      let got : S.get (S.put s d bytes) d n ≡ bytes =
        subst (λ m. S.get (S.put s d bytes) d m ≡ bytes) size (L.get-put s d bytes) in
      let parts =
        cut bytes (drop n l'.buffer) l'.beyond (length l'.buffer)
          (omega (arith, size, length-drop n l'.buffer, h')) in
      rw (take-append_le n l.buffer l.beyond h, drop-append_le n l'.buffer l'.beyond h', got)
        (ap₂ (λ b y. (ok done', record { buffer = b; beyond = y })) parts.0 parts.1)

-- `put_nb` and `get_nb`, of a natural size at a natural offset: a request is made for bytes of the
-- region alone, and answered once.
pub rma_nb-answered :
    (counter : ℕ) (course : Course) (r : RemoteMemory) (nbytes size offset : ℕ)
    → counter + 1 < 2 ^ 32
    → asked nbytes size + offset ≤ r.length
    → r.base + r.length < word_mod
    → rma_nb counter course r nbytes (pos size) (pos offset)
      ≡ ok ((asked nbytes size, r.base + offset), answered send (asked nbytes size) course)
unfolding rma_nb
rma_nb-answered counter course r nbytes size offset bound fits word =
    let n = asked nbytes size in
    rw
      (
        rma_nb,
        rma_range_lem r nbytes size offset,
        sym (transfer-answered send n counter course bound),
      )
      (ground arith)
