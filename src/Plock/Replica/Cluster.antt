-- ===== src/Plock/Replica/Cluster.antt =====
-- The nodes of a cluster without ownership (group/dlm_controld/plock.c): the messages that the group
-- delivers, in one order, decide the locks and the queues on every node.
use dlm.Base.{
  ℕ, ◌≡◌, refl, sym, ap, ◌∙◌, Bool, true, false, not, List, [], ◌∷◌, ◌==◌, ◌&&◌, if◌then◌else◌,
  arith, Bool-cases, inl, inr, map, All, eq→==,
}
use mathlib.Core.Path.{fun_ext}
use dlm.Plock.Types.{
  OpType, lock, unlock, get, other, Info, Resource, Env, World, Lockspace, Header,
}
use dlm.Plock.Wire.{info_bswap_in}
use dlm.Plock.Messages.{count_recv, plock_found, receive_plock_now, receive_plock, is_get}
use dlm.Plock.Resource.Store.{Unique}
use dlm.Plock.Replica.{View, operate}
use dlm.Plock.Replica.Nodes.{view_at, IsReplicated, Operates, plock_found-IsReplicated}

-- What a message does to the replicated state: nothing if it is about another node's request.
unfoldable pub deliver : Header → Info → (ℕ → View) → ℕ → View
deliver hd i state n =
    if hd.nodeid == i.nodeid && i.number == n then operate i.optype i (state n) else state n

operate-is_get : (op : OpType) (i : Info) (v : View) → is_get op ≡ true → operate op i v ≡ v
unfolding operate
operate-is_get lock i v h = cc
operate-is_get unlock i v h = cc
operate-is_get get i v h = refl
operate-is_get (other n) i v h = refl

-- What a node's state must show after a message.
abbrev pub Delivers : Header → Info → List Resource → List Resource → Type 0
Delivers hd i before after = (n : ℕ) → view_at after n ≡ deliver hd i (view_at before) n

module _ (env : Env) (ls : Lockspace) (w : World) (hd : Header) (payload : Info) where
  abbrev decoded : Info
  decoded = info_bswap_in env.big_endian payload

  abbrev counted : World
  counted = count_recv env w

  counted-IsReplicated : IsReplicated env ls w → IsReplicated env ls counted
  unfolding count_recv
  counted-IsReplicated h = record {
    no_ownership = h.no_ownership;
    unique = h.unique;
    unowned = h.unowned;
    no_failure = h.no_failure;
    live = h.live;
  }

  ignored-Delivers :
      ((v : View) → operate decoded.optype decoded v ≡ v)
      → Delivers hd decoded ls.plock_resources ls.plock_resources
  unfolding deliver
  ignored-Delivers h n = ground (arith, h (view_at ls.plock_resources n))

  abbrev is_foreign_get : Bool
  is_foreign_get = is_get decoded.optype && not (hd.nodeid == env.our_nodeid)

  -- The three ways through the handler.
  receive-live :
      ls.save_plocks ≡ false
      → receive_plock env ls w hd payload ≡ receive_plock_now env ls w hd payload
  unfolding receive_plock
  receive-live h = ground arith

  receive-foreign_get :
      is_foreign_get ≡ true → receive_plock_now env ls w hd payload ≡ (ls, counted)
  unfolding receive_plock_now
  receive-foreign_get h = rw h

  receive-mismatch :
      is_foreign_get ≡ false
      → (hd.nodeid == decoded.nodeid) ≡ false
      → receive_plock_now env ls w hd payload ≡ (ls, counted)
  unfolding receive_plock_now
  receive-mismatch g h = rw (g, h, eq→== hd.nodeid hd.nodeid refl)

  receive-accepted :
      is_foreign_get ≡ false
      → (hd.nodeid == decoded.nodeid) ≡ true
      → receive_plock_now env ls w hd payload ≡ plock_found env ls decoded hd.nodeid counted
  unfolding receive_plock_now
  receive-accepted g h = rw (g, h, eq→== hd.nodeid hd.nodeid refl)

  abbrev Shows : Lockspace × World → Type 0
  Shows out =
      IsReplicated env out.0 out.1 × Delivers hd decoded ls.plock_resources (out.0).plock_resources

  unaccepted-Delivers :
      (hd.nodeid == decoded.nodeid) ≡ false
      → Delivers hd decoded ls.plock_resources ls.plock_resources
  unfolding deliver
  unaccepted-Delivers h n = ground arith

  accepted-Delivers :
      (rs : List Resource)
      → (hd.nodeid == decoded.nodeid) ≡ true
      → Operates decoded ls.plock_resources rs
      → Delivers hd decoded ls.plock_resources rs
  unfolding deliver
  accepted-Delivers rs h o n = rw h (o n)

  -- One message on one node.
  pub receive_plock-Delivers : IsReplicated env ls w → Shows (receive_plock env ls w hd payload)
  receive_plock-Delivers h = rw (receive-live h.live) (elim (Bool-cases is_foreign_get) [
    | inl g ↦ rw (receive-foreign_get g) (
      counted-IsReplicated h,
      ignored-Delivers (λ v. operate-is_get decoded.optype decoded v (ground arith)),
    )
    | inr g ↦ elim (Bool-cases (hd.nodeid == decoded.nodeid)) [
      | inr e ↦ rw (receive-mismatch g e) (counted-IsReplicated h, unaccepted-Delivers e)
      | inl e ↦ rw (receive-accepted g e) (
          let out =
            plock_found-IsReplicated env ls decoded hd.nodeid counted (counted-IsReplicated h) in
          (out.0, accepted-Delivers _ e out.1))
    ]
  ])

-- A message as one node gets it, with the settings and the clock of that node at that time.
pub record Event : Type 0 where
  pub env : Env
  pub header : Header
  pub payload : Info

-- A node handles the messages of the group in their order.
unfoldable pub handle : List Event → Lockspace × World → Lockspace × World
handle [] s = s
handle (e ∷ es) s = handle es (receive_plock e.env s.0 s.1 e.header e.payload)

-- The messages as they read on the node.
abbrev pub message : Event → Header × Info
message e = (e.header, info_bswap_in (e.env).big_endian e.payload)

unfoldable pub deliver_all : List (Header × Info) → (ℕ → View) → ℕ → View
deliver_all [] state = state
deliver_all (m ∷ ms) state = deliver_all ms (deliver m.0 m.1 state)

-- No node uses ownership.
abbrev pub NoOwnership : List Event → Type 0
NoOwnership [] = Unit {0}
NoOwnership (e ∷ es) = ((e.env).plock_ownership ≡ false) × NoOwnership es

-- A node that starts with a table of unowned resources, live and with memory.
pub record IsLive (s : Lockspace × World) : Type 0 where
  pub unique : Unique (s.0).plock_resources
  pub unowned : All (λ r. r.owner ≡ 0) (s.0).plock_resources
  pub no_failure : (s.1).mem ≡ []
  pub live : (s.0).save_plocks ≡ false

-- On a node that has no ownership and no failed allocation, that starts with a table in which no
-- number occurs twice and no resource has an owner, its locks and the requests in its queue at
-- every resource, after any sequence of plock messages, are those of the reference, which has no
-- nodes, no table, no allocator and no messages to send: a function from the messages to the
-- locks and the queued requests at each number.
pub handle-deliver_all :
    (es : List Event) (s : Lockspace × World)
    → NoOwnership es
    → IsLive s
    → (n : ℕ)
    → view_at ((handle es s).0).plock_resources n
      ≡ deliver_all (map message es) (view_at (s.0).plock_resources) n
unfolding handle deliver_all
handle-deliver_all [] s o h n = refl
handle-deliver_all (e ∷ es) s o h n =
    let out = receive_plock-Delivers e.env s.0 s.1 e.header e.payload (record {
      no_ownership = o.0;
      unique = h.unique;
      unowned = h.unowned;
      no_failure = h.no_failure;
      live = h.live;
    }) in
    let s' = receive_plock e.env s.0 s.1 e.header e.payload in
    handle-deliver_all es s' o.1
      (record {
        unique = out.0.unique;
        unowned = out.0.unowned;
        no_failure = out.0.no_failure;
        live = out.0.live;
      })
      n
    ∙ ap (λ (v : ℕ → View). deliver_all (map message es) v n) (fun_ext out.1)

-- Two nodes that have no ownership and no failed allocation, that start with equal locks and the
-- same requests in their queues at every resource and with tables in which no number occurs
-- twice and no resource has an owner, and that receive the same plock messages in the same
-- order, each with its own clock and settings, have equal locks and the same requests in their
-- queues at every resource afterwards.
pub nodes_agree :
    (es es' : List Event) (s s' : Lockspace × World)
    → NoOwnership es
    → NoOwnership es'
    → IsLive s
    → IsLive s'
    → map message es ≡ map message es'
    → ((n : ℕ) → view_at (s.0).plock_resources n ≡ view_at (s'.0).plock_resources n)
    → (n : ℕ)
    → view_at ((handle es s).0).plock_resources n ≡ view_at ((handle es' s').0).plock_resources n
nodes_agree es es' s s' o o' h h' same start n =
    handle-deliver_all es s o h n
    ∙ ap (λ (ms : List (Header × Info)). deliver_all ms (view_at (s.0).plock_resources) n) same
    ∙ ap (λ (v : ℕ → View). deliver_all (map message es') v n) (fun_ext start)
    ∙ sym (handle-deliver_all es' s' o' h' n)
