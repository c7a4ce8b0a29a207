-- ===== src/Proxy/Send.antt =====
-- src/proxy.rs: from the selection of a node to its reply. The request is in flight at the node
-- while it answers, and no longer.
use echofront.Base.{
  ℕ, ◌-◌, ◌<◌, ◌≡◌, ap, ◌∙◌, ltb, if◌then◌else◌, List, ok, ◌>>=◌, index, index_total,
  index-update_self, length, length-update, index-lt,
}
use echofront.Base.Words.{add_u32, add_u64}
use echofront.Http.{Request}
use echofront.Pool.{Pool, Backend, begin, end, change}
use echofront.Pool.Change.{changed, change_lem, update-update}
use echofront.Proxy.{dispatch}
use echofront.Proxy.Trips.{answered_by}
use echofront.Proxy.Handle.{Trip, or_first, conclude, send_to}
use echofront.Upstream.{Upstream, UpstreamReply}

module _ {ℓ} {U : Type ℓ} (upstream : Upstream U) (req : Request) where
  abbrev entered : Backend U → Backend U
  entered b = record b { in_flight = add_u32 b.in_flight 1 }

  abbrev left : Backend U → Backend U
  left b = record b { in_flight = b.in_flight - 1 }

  -- The upstream of a backend after it was asked.
  abbrev asked : U → Backend U → Backend U
  asked u b = record b { upstream = (upstream.send req u).1 }

  begin_lem :
      (p : Pool U) (idx : ℕ) → idx < length p.backends → begin p idx ≡ ok (changed p idx entered)
  unfolding begin
  begin_lem p idx h = change_lem p idx entered h

  end_lem : (p : Pool U) (idx : ℕ) → idx < length p.backends → end p idx ≡ ok (changed p idx left)
  unfolding end
  end_lem p idx h = change_lem p idx left h

  dispatch_lem :
      (p : Pool U) (idx : ℕ) (b : Backend U)
      → index p.backends idx ≡ ok b
      → dispatch upstream p idx req
        ≡ ok ((upstream.send req b.upstream).0, changed p idx (asked b.upstream))
  unfolding dispatch
  dispatch_lem p idx b e =
      ap
        (λ m. m >>= λ b'.
          change p idx (asked b'.upstream) >>= λ p'. ok ((upstream.send req b'.upstream).0, p'))
        e
      ∙ ap (λ m. m >>= λ p'. ok ((upstream.send req b.upstream).0, p'))
          (change_lem p idx (asked b.upstream) (index-lt p.backends idx e))

  -- The variables of the loop when the reply is there.
  abbrev pub replied : Trip U → ℕ → Pool U → Trip U
  replied t idx pool = record t {
    pool = pool;
    first_selected = or_first t.first_selected idx;
    total_failovers = if ltb 0 t.attempt_no then add_u64 t.total_failovers 1 else t.total_failovers;
  }

  -- A node is asked once, and its reply is concluded with the request no longer in flight.
  pub send_to-answer :
      (now max_retries idx : ℕ) (t : Trip U) (b : Backend U)
      → index t.pool.backends idx ≡ ok b
      → send_to upstream now req max_retries idx t
        ≡ conclude
            (upstream.send req b.upstream).0.outcome
            (upstream.send req b.upstream).0.latency_ms
            idx
            b.name
            now
            max_retries
            (replied t idx (changed t.pool idx (answered_by (upstream.send req b.upstream).1)))
  unfolding send_to
  send_to-answer now max_retries idx t b e =
      let p : Pool U = t.pool in
      let h = index-lt p.backends idx e in
      let p1 : Pool U = changed p idx entered in
      let u : U = b.upstream in
      let p2 : Pool U = changed p1 idx (asked u) in
      let e1 = index-update_self p.backends idx entered e in
      let e2 = index-update_self p1.backends idx (asked u) e1 in
      let len1 = length-update p.backends idx entered in
      let len2 = length-update p1.backends idx (asked u) ∙ len1 in
      let ending = λ (name : List ℕ) (reply : UpstreamReply) (q : Pool U).
        conclude reply.outcome reply.latency_ms idx name now max_retries (replied t idx q) in
      let close =
        λ (r : UpstreamReply × Pool U) (b : Backend U). end r.1 idx >>= ending b.name r.0 in
      let after = λ (r : UpstreamReply × Pool U). index r.1.backends idx >>= close r in
      let reply = (upstream.send req u).0 in
      ap (λ m. m >>= λ q. dispatch upstream q idx req >>= after) (begin_lem p idx h)
      ∙ ap (λ m. m >>= after) (dispatch_lem p1 idx (entered b) e1)
      ∙ ap (λ m. m >>= close (reply, p2)) e2
      ∙ ap (λ m. m >>= ending b.name reply) (end_lem p2 idx (rw len2 h))
      ∙ ap (λ bs. ending b.name reply (record p { backends = bs }))
          (update-update p1.backends idx (asked u) left
            ∙ update-update p.backends idx entered (λ b. left (asked u b)))

  -- A node in bounds has such a reply.
  pub send_to_lem :
      (now max_retries idx : ℕ) (t : Trip U)
      → idx < length t.pool.backends
      → (reply : UpstreamReply) × (name : List ℕ) × (u : U) × (send_to upstream now req max_retries
            idx t
          ≡ conclude reply.outcome reply.latency_ms idx name now max_retries
              (replied t idx (changed t.pool idx (answered_by u))))
  send_to_lem now max_retries idx t h =
      let (b, e) = index_total t.pool.backends idx h in
      (
        (upstream.send req b.upstream).0,
        b.name,
        (upstream.send req b.upstream).1,
        send_to-answer now max_retries idx t b e,
      )
