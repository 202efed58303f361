-- ===== src/Libs/Ucxio/RoundTrip.antt =====
-- Reads and writes of the stream at a position, and behind its end.
use ucx_py.Prelude.{
  ap, ◌∙◌, ◌⊎◌, ℕ, ◌+◌, ◌-◌, ◌≤◌, ◌<◌, ◌≡◌, refl, zero, suc, Bool, ◌++◌, length, take, drop,
  if◌then◌else◌, ltb, arith,
}
use ucx_py.Prelude.Int.{ℤ, pos, negsuc}
use ucx_py.Exceptions.{Exn, Result, ok, err}
use ucx_py.Libs.Arr.{word_mod}
use ucx_py.Libs.Rma.{RemoteStore, Local, to_word, ucp_put, ucp_get}
use ucx_py.Libs.Rma.Memory.{IsLawful}
use ucx_py.Libs.Rma.Bounds.{ucp_put-apart, ucp_get-put}
use ucx_py.Libs.Ucxio.{
  Outcome, raised, UcxIo, seek, clip, Answer, await, flush, rma_args, after_rma, do_rma, write,
  readinto,
}

-- The number of bytes from a position that a call of so many transfers.
abbrev pub clipped : ℕ → ℕ → ℕ → ℕ
clipped length p nbytes = if ltb length (p + nbytes) then length - p else nbytes

abbrev pub at : ℕ → UcxIo → UcxIo
at p io = record io { cursor = pos p }

clip_lem :
    (p nbytes : ℕ) (io : UcxIo)
    → p ≤ io.length
    → clip (at p io) nbytes ≡ pos (clipped io.length p nbytes)
unfolding clip
clip_lem zero nbytes io h = ground arith
clip_lem (suc p) nbytes io h = ground arith

clip-past :
    (p nbytes : ℕ) (io : UcxIo) → io.length < p → clip (at p io) nbytes ≡ negsuc (p - suc io.length)
unfolding clip
clip-past zero nbytes io h = ground arith
clip-past (suc p) nbytes io h = ground arith

rma_args_lem :
    (p nbytes : ℕ) (io : UcxIo)
    → p ≤ io.length
    → io.remote_addr + io.length < word_mod
    → rma_args (at p io) (clip (at p io) nbytes)
      ≡ ok (clipped io.length p nbytes, io.remote_addr + p)
unfolding rma_args to_word
rma_args_lem p nbytes io h bound = rw (clip_lem p nbytes io h) (ground arith)

-- A call within the length is one operation at the position.
do_rma_lem :
    {M : Type 0} (op : ℕ → ℕ → Result Bool × M) (m : M) (a : Answer) (nbytes p : ℕ) (io : UcxIo)
    → p ≤ io.length
    → io.remote_addr + io.length < word_mod
    → let n = clipped io.length p nbytes in
      do_rma op m a nbytes (at p io) ≡ after_rma a (at p io) (pos n) (op n (io.remote_addr + p))
unfolding do_rma
do_rma_lem op m a nbytes p io h bound =
    rw (do_rma, rma_args_lem p nbytes io h bound, clip_lem p nbytes io h)

-- From a position behind the end of the region a call raises OverflowError and changes nothing.
pub do_rma-past :
    {M : Type 0} (op : ℕ → ℕ → Result Bool × M) (m : M) (a : Answer) (nbytes p : ℕ) (io : UcxIo)
    → io.length < p
    → do_rma op m a nbytes (at p io) ≡ (raised Exn.overflow_error, (at p io, m))
unfolding do_rma rma_args to_word
do_rma-past op m a nbytes p io h = rw (do_rma, rma_args, clip-past p nbytes io h)

after_rma-state :
    {M : Type 0} (a : Answer) (io : UcxIo) (size : ℤ) (r : Result Bool × M)
    → (after_rma a io size r).1.1 ≡ r.1
unfolding after_rma
after_rma-state a io size (err x, m) = refl
after_rma-state a io size (ok finished, m) = refl

module _ (S : RemoteStore) where
  write_lem :
      (done : Bool) (a : Answer) (l : Local) (p : ℕ) (io : UcxIo) (s : S.State)
      → a.status ≡ ok done
      → p ≤ io.length
      → io.remote_addr + io.length < word_mod
      → let n = clipped io.length p (length l.buffer) in
        write S a l (at p io) s ≡ (
          await done (flush a.counter a.delay a.course) (pos n),
          (at (p + n) io, (ucp_put S (ok done) n (io.remote_addr + p) l s).1),
        )
  unfolding write after_rma ucp_put
  write_lem done a l p io s e h bound =
      let n = clipped io.length p (length l.buffer) in
      do_rma_lem (λ n d. ucp_put S a.status n d l s) s a (length l.buffer) p io h bound
      ∙ ap (λ r. after_rma a (at p io) (pos n) (ucp_put S r n (io.remote_addr + p) l s)) e

  readinto_lem :
      (done : Bool) (a : Answer) (l : Local) (p : ℕ) (io : UcxIo) (s : S.State)
      → a.status ≡ ok done
      → p ≤ io.length
      → io.remote_addr + io.length < word_mod
      → let n = clipped io.length p (length l.buffer) in
        readinto S a l (at p io) s ≡ (
          await done (flush a.counter a.delay a.course) (pos n),
          (at (p + n) io, (ucp_get S (ok done) n (io.remote_addr + p) l s).1),
        )
  unfolding readinto after_rma ucp_get
  readinto_lem done a l p io s e h bound =
      let n = clipped io.length p (length l.buffer) in
      do_rma_lem (λ n d. ucp_get S a.status n d l s) l a (length l.buffer) p io h bound
      ∙ ap (λ r. after_rma a (at p io) (pos n) (ucp_get S r n (io.remote_addr + p) l s)) e

clipped_le :
    (length p nbytes : ℕ)
    → p ≤ length
    → (p + clipped length p nbytes ≤ length) × (clipped length p nbytes ≤ nbytes)
clipped_le length p nbytes h = ground arith

module _ (S : RemoteStore) (L : IsLawful S) where
  -- Over a lawful memory that shows each put and get as completed once UCX has accepted it: from a
  -- position p within the region, which fits 64 bits, `write` transfers as many bytes as the buffer
  -- has or as are left, moves the position by them and returns their number, behind its flush if UCX
  -- says that the put is not finished; `seek` to p and `readinto` a buffer of the same size then does
  -- the same, and that buffer holds the bytes written, followed by its old bytes, and nothing behind
  -- it is changed.
  pub readinto-write :
      (done done' : Bool) (a a' : Answer) (l l' : Local) (p : ℕ) (io : UcxIo) (s : S.State)
      → a.status ≡ ok done
      → a'.status ≡ ok done'
      → p ≤ io.length
      → io.remote_addr + io.length < word_mod
      → length l'.buffer ≡ length l.buffer
      → let n = clipped io.length p (length l.buffer) in
        let (out, (io', s')) = write S a l (at p io) s in
        (out ≡ await done (flush a.counter a.delay a.course) (pos n))
        × (io' ≡ at (p + n) io)
        × (readinto S a' l' (seek (pos p) 0 io') s' ≡ (
          await done' (flush a'.counter a'.delay a'.course) (pos n),
          (
            at (p + n) io,
            record { buffer = take n l.buffer ++ drop n l'.buffer; beyond = l'.beyond },
          ),
        ))
  unfolding seek
  readinto-write done done' a a' l l' p io s ok_a ok_a' h bound same =
      let n = clipped io.length p (length l.buffer) in
      let fits = (clipped_le io.length p (length l.buffer) h).1 in
      let fits' : n ≤ length l'.buffer = omega (arith, fits, same) in
      let s' = (ucp_put S (ok done) n (io.remote_addr + p) l s).1 in
      let result : ℕ → Local → Outcome ℤ × (UcxIo × Local) =
        λ k m. (await done' (flush a'.counter a'.delay a'.course) (pos k), (at (p + k) io, m)) in
      let wrote = write_lem S done a l p io s ok_a h bound in
      let got = ucp_get-put S L done done' n (io.remote_addr + p) l l' s fits fits' in
      rw wrote (
        refl,
        refl,
        readinto_lem S done' a' l' p io s' ok_a' h bound
            ∙ ap (λ k. result k (ucp_get S (ok done') k (io.remote_addr + p) l' s').1)
                (ap (clipped io.length p) same)
            ∙ ap (λ r. result n r.1) got,
      )

  -- Over a lawful memory, whatever UCX answers, a write from a position within the region, which
  -- fits 64 bits, leaves every byte before and behind the region as it was.
  pub write-window :
      (a : Answer) (l : Local) (p : ℕ) (io : UcxIo) (s : S.State) (b k : ℕ)
      → p ≤ io.length
      → io.remote_addr + io.length < word_mod
      → (b + k ≤ io.remote_addr) ⊎ (io.remote_addr + io.length ≤ b)
      → S.get (write S a l (at p io) s).1.1 b k ≡ S.get s b k
  unfolding write
  write-window a l p io s b k h bound apart =
      let n = clipped io.length p (length l.buffer) in
      let r = ucp_put S a.status n (io.remote_addr + p) l s in
      let inside = (clipped_le io.length p (length l.buffer) h).0 in
      ap (λ t. S.get t.1.1 b k)
        (do_rma_lem (λ n d. ucp_put S a.status n d l s) s a (length l.buffer) p io h bound)
      ∙ ap (λ t. S.get t b k) (after_rma-state a (at p io) (pos n) r)
      ∙ ucp_put-apart S L a.status n (io.remote_addr + p) l s b k (ground arith)
