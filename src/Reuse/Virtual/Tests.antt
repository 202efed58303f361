-- ===== src/Reuse/Virtual/Tests.antt =====
-- Two virtual endpoints, whose messages come in another order than they are received.
use ucx_py.Prelude.{
  ℕ, ◌≡◌, ◌%◌, refl, Bool, true, false, not, Option, none, some, List, [], ◌∷◌, ◌++◌, ◌==◌,
  if◌then◌else◌, All, arith,
}
use ucx_py.Struct.{Bytes}
use ucx_py.Hash.{Digest, Arg, hash64bits, int16}
use ucx_py.Core.Endpoint.{Tags, UserTag, init, closed}
use ucx_py.Core.Endpoint.Tests.{backend}
use ucx_py.Core.Objects.{Message}
use ucx_py.Libs.UcxEndpoint
use ucx_py.Core.Objects.Deliver.{tag_of}
use ucx_py.Reuse.Virtual.{Shared, Event, send_on, recv_on, Matching, run}
use ucx_py.Reuse.Virtual.Ready.{Ready}
use ucx_py.Reuse.Virtual.Wire.{IsMatching}
use ucx_py.Reuse.Virtual.Channels.{spec_run, run-queues}

-- Digests that tell the two tags apart.
abbrev second : List Arg → ℕ
second (Arg.num t ∷ Arg.num k ∷ []) = k
second args = 7

abbrev digest_of : List Arg → List ℕ
digest_of args = (second args % 16) ∷ []

abbrev sha1 : Digest
sha1 = record { hexdigest = digest_of; hexadecimal = λ args. (omega arith, tt) }

-- The oldest message with a tag, found from the front.
abbrev add_front : Message → Option (Bytes × List Message) → Option (Bytes × List Message)
add_front m none = none
add_front m (some (bytes, rest)) = some (bytes, m ∷ rest)

abbrev oldest_on : Matching
oldest_on k [] = none
oldest_on k ((j, bytes) ∷ w) =
    let rest = oldest_on k w in if j == k then some (bytes, w) else add_front (j, bytes) rest

oldest_on-nothing :
    (k : ℕ) (w : List Message) → All (λ m. (m.0 == k) ≡ false) w → oldest_on k w ≡ none
oldest_on-nothing k [] h = refl
oldest_on-nothing k ((j, bytes) ∷ w) (h, hs) = rw (h, oldest_on-nothing k w hs) refl

oldest_on-oldest :
    (k : ℕ) (before : List Message) (bytes : Bytes) (after : List Message)
    → All (λ m. (m.0 == k) ≡ false) before
    → oldest_on k (before ++ (k, bytes) ∷ after) ≡ some (bytes, before ++ after)
oldest_on-oldest k [] bytes after h = ground arith
oldest_on-oldest k ((j, b) ∷ before) bytes after (h, hs) =
    rw (h, oldest_on-oldest k before bytes after hs) refl

oldest_on-IsMatching : IsMatching oldest_on
oldest_on-IsMatching = record { nothing = oldest_on-nothing; oldest = oldest_on-oldest }

abbrev user_tag : Bool → UserTag
user_tag true = record { value = 0; hash = Arg.num 0 }
user_tag false = record { value = 1; hash = Arg.num 1 }

abbrev same : Bool → Bool → Bool
same true b = b
same false b = not b

abbrev both : Tags
both = record { msg_send = 9; msg_recv = 9; ctrl_send = 13; ctrl_recv = 14 }

abbrev shared : Shared
shared = record {
  sender = some (init backend 0 (some both));
  receiver = some (init backend 0 (some both));
  wire = [];
}

both-open : closed (init backend 0 (some both)) ≡ false
unfolding closed init UcxEndpoint.is_alive
both-open = refl

ready : (field : Tags → ℕ) → field both ≡ 9 → Ready field 9 (some (init backend 0 (some both)))
unfolding init
ready field e = record {
  ep = init backend 0 (some both);
  backend = backend;
  ctx = 0;
  tags = both;
  has_endpoint = refl;
  has_ep = refl;
  has_ctx = refl;
  has_tags = refl;
  has_tag = e;
  is_open = both-open;
  unlimited = refl;
}

abbrev crossed : List (Event Bool)
crossed =
    send_on true (1 ∷ [])
    ∷ send_on false (2 ∷ [])
    ∷ recv_on false
    ∷ send_on true (3 ∷ [])
    ∷ recv_on true
    ∷ recv_on true
    ∷ recv_on true
    ∷ []

apart :
    (v u : Bool)
    → (tag_of sha1 9 (some (user_tag v)) == tag_of sha1 9 (some (user_tag u))) ≡ same v u
unfolding tag_of hash64bits int16
apart true true = refl
apart true false = refl
apart false true = refl
apart false false = refl

run-queues_example :
    run sha1 (λ k. true) oldest_on 9 user_tag crossed shared
    ≡ none ∷ none ∷ some (2 ∷ []) ∷ none ∷ some (1 ∷ []) ∷ some (3 ∷ []) ∷ none ∷ []
unfolding spec_run
run-queues_example =
    run-queues same sha1 (λ k. true) oldest_on 9 user_tag oldest_on-IsMatching apart crossed shared
      (ready (λ tags. tags.msg_send) refl) (ready (λ tags. tags.msg_recv) refl) refl
