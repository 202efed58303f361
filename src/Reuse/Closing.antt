-- ===== src/Reuse/Closing.antt =====
-- Closing virtual endpoints that share one.
use ucx_py.Prelude.{ℕ, zero, suc, ◌≡◌, true, false, some, [], ◌∷◌, arith, leb, lookup}
use ucx_py.Prelude.Int.{pos}
use ucx_py.Reuse.{EpHandle, Existing, modify_at, drop_ref, closed, close}

lookup-modify_at :
    (k : ℕ) (f : EpHandle → EpHandle) (d : Existing) (h : EpHandle)
    → lookup k d ≡ some h
    → lookup k (modify_at k f d) ≡ some (f h)
unfolding modify_at
lookup-modify_at k f [] h found = ground arith
lookup-modify_at k f ((j, g) ∷ d) h found = ground (arith, lookup-modify_at k f d h)

-- j virtual endpoints over the handle k are closed, each once.
pub close_times : ℕ → ℕ → Existing → Existing
close_times zero k d = d
close_times (suc j) k d = close_times j k (close (some k) d).1

close_step :
    (k n : ℕ) (d : Existing) (h : EpHandle)
    → lookup k d ≡ some h
    → h.is_open ≡ true
    → h.refcount ≡ pos (suc n)
    → lookup k (close (some k) d).1 ≡ some (drop_ref h)
unfolding close
close_step k n d h found is_open count = ground (arith, lookup-modify_at k drop_ref d h found)

close_shut :
    (j k : ℕ) (d : Existing) (h : EpHandle)
    → lookup k d ≡ some h
    → h.is_open ≡ false
    → closed (some k) (close_times j k d) ≡ true
unfolding close_times closed close
close_shut zero k d h found shut = ground arith
close_shut (suc j) k d h found shut = ground (arith, close_shut j k d h found shut)

-- An endpoint with n + 1 references stays open while at most n of the virtual endpoints over it
-- have been closed, each once, and is closed with the last of them.
pub closed-close_times :
    (j k n : ℕ) (d : Existing) (h : EpHandle)
    → lookup k d ≡ some h
    → h.is_open ≡ true
    → h.refcount ≡ pos (suc n)
    → closed (some k) (close_times j k d) ≡ leb (suc n) j
unfolding close_times closed
closed-close_times zero k n d h found is_open count = ground arith
closed-close_times (suc j) k zero d h found is_open count =
    let gone = close_step k zero d h found is_open count in
    ground (arith, close_shut j k (close (some k) d).1 (drop_ref h) gone)
closed-close_times (suc j) k (suc n) d h found is_open count =
    let left = close_step k (suc n) d h found is_open count in
    ground (arith, closed-close_times j k n (close (some k) d).1 (drop_ref h) left)
