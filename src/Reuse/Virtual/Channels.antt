-- ===== src/Reuse/Virtual/Channels.antt =====
-- The virtual endpoints of a shared endpoint are separate queues.
use ucx_py.Prelude.{
  ap₂, ℕ, ◌≡◌, refl, ap, sym, ◌∙◌, Bool, Option, none, some, List, [], ◌∷◌, ◌++◌, ◌==◌,
  if◌then◌else◌, inl, inr,
}
use ucx_py.Struct.{Bytes}
use ucx_py.Hash.{Digest}
use ucx_py.Core.Endpoint.{UserTag}
use ucx_py.Core.Objects.Deliver.{tag_of}
use ucx_py.Reuse.Virtual.{Shared, Event, send_on, recv_on, Matching, taken, wire_tag, step, run}
use ucx_py.Reuse.Virtual.Ready.{Ready, send_lem, recv_lem}
use ucx_py.Reuse.Virtual.Wire.{IsMatching, on_tag, matching-on_tag, on_tag-sent, on_tag-received}

-- The specification: a queue for each virtual endpoint.
abbrev pub Queues : Type 0 → Type 0
Queues V = V → List Bytes

module _ {V : Type 0} (same : V → V → Bool) where
  unfoldable pub spec_step : Event V → Queues V → Option Bytes × Queues V
  spec_step (send_on v bytes) q = (none, λ u. if same v u then q u ++ bytes ∷ [] else q u)
  spec_step (recv_on v) q = elim (q v) [
    | [] ↦ (none, q)
    | bytes ∷ rest ↦ (some bytes, λ u. if same v u then rest else q u)
  ]

  unfoldable pub spec_run : List (Event V) → Queues V → List (Option Bytes)
  unfolding spec_step
  spec_run [] q = []
  spec_run (ev ∷ evs) q = let (reply, q') = spec_step ev q in reply ∷ spec_run evs q'

module _ {V : Type 0} (same : V → V → Bool) (sha1 : Digest) (probe : ℕ → Bool) (matching : Matching)
    (t : ℕ) (user_tag : V → UserTag) (m : IsMatching matching)
    (apart : (v u : V)
      → (wire_tag sha1 probe matching t user_tag v == wire_tag sha1 probe matching t user_tag u)
        ≡ same v u) where
  abbrev tag_at : V → ℕ
  tag_at v = tag_of sha1 t (some (user_tag v))

  -- The connection stands for these queues.
  record Stands (s : Shared) (q : Queues V) : Type 0 where
    sends : Ready (λ tags. tags.msg_send) t s.sender
    receives : Ready (λ tags. tags.msg_recv) t s.receiver
    queues : (u : V) → on_tag (tag_at u) s.wire ≡ q u

  step-Stands :
      (ev : Event V) (s : Shared) (q : Queues V)
      → Stands s q
      → let (reply, s') = step sha1 probe matching t user_tag ev s in
        let (reply', q') = spec_step same ev q in (reply ≡ reply') × Stands s' q'
  unfolding step spec_step
  step-Stands (send_on v bytes) s q i =
      let (h', e, r) = send_lem sha1 t (user_tag v) bytes s.sender i.sends in
      let s1 : step sha1 probe matching t user_tag (send_on v bytes) s
          ≡ (none, record s { sender = h'; wire = s.wire ++ (tag_at v, bytes) ∷ [] }) =
        rw (step, e) refl in
      rw s1 (
        refl,
        record {
          sends = r;
          receives = i.receives;
          queues = λ u.
              on_tag-sent (tag_at u) (tag_at v) bytes s.wire (q u) (same v u) (apart v u)
                (i.queues u);
        },
      )
  step-Stands (recv_on v) s q i = elim (matching-on_tag matching (tag_at v) s.wire m) [
    | inl (e, empty) ↦
        (let none_there : q v ≡ [] = sym (i.queues v) ∙ empty in
          rw (step, spec_step, e, none_there) (refl, i))
    | inr (bytes, w', e, head, others) ↦
        (let there : q v ≡ bytes ∷ on_tag (tag_at v) w' = sym (i.queues v) ∙ head in
          let (h', got, r) =
            recv_lem sha1 probe t (user_tag v) (λ k. taken (matching k s.wire)) bytes s.receiver
              i.receives (ap taken e) in
          let s1 : step sha1 probe matching t user_tag (recv_on v) s
              ≡ (some bytes, record s { receiver = h'; wire = w' }) =
            rw (step, e, got) refl in
          rw (s1, spec_step, there)
            (
              refl,
              record {
                sends = i.sends;
                receives = r;
                queues = λ u.
                    on_tag-received (tag_at u) (tag_at v) w' (q u) (same v u) (apart v u)
                      (λ other. others (tag_at u) other ∙ i.queues u);
              },
            ))
  ]

  run-spec :
      (evs : List (Event V)) (s : Shared) (q : Queues V)
      → Stands s q
      → run sha1 probe matching t user_tag evs s ≡ spec_run same evs q
  unfolding run spec_run
  run-spec [] s q i = refl
  run-spec (ev ∷ evs) s q i =
      let (reply, i') = step-Stands ev s q i in ap₂ ◌∷◌ reply (run-spec evs _ _ i')

  -- Over one connection between open endpoints with the same message tag, no limit on receives and
  -- nothing in flight, where UCX gives a receive the oldest message with its tag and the hashed
  -- tags of different virtual endpoints differ, whatever the order in which messages are sent and
  -- received on the virtual endpoints, each receives what was sent on it, in order, as if it had a
  -- queue of its own.
  pub run-queues :
      (evs : List (Event V)) (s : Shared)
      → Ready (λ tags. tags.msg_send) t s.sender
      → Ready (λ tags. tags.msg_recv) t s.receiver
      → s.wire ≡ []
      → run sha1 probe matching t user_tag evs s ≡ spec_run same evs (λ u. [])
  run-queues evs s sends receives empty =
      run-spec evs s (λ u. [])
        (record { sends = sends; receives = receives; queues = λ u. ap (on_tag (tag_at u)) empty })
