-- ===== src/Forward/Keeps.antt =====
-- Where the player is when a stage of a handoff fails
-- (internal/grpc/registrysvc/forward_player.go, internal/grpc/cellsvc/server.go).
use mathlib.Core.Path.{subst}
use mmo.Prelude.{
  ◌≡◌, ◌∙◌, ap, Bool, true, false, ◌||◌, not, Option, none, some, arith, ℕ-Eq, text-Eq, ◌==◌, ◌⊎◌,
  inl, inr, Bool-cases,
}
use mmo.Prelude.Text.{Text, trim_space, is_empty}
use mmo.Prelude.Dict.{get}
use mmo.Prelude.Float.{Float}
use mmo.Ecs.{Entity}
use mmo.Cell.{CellSpec}
use mmo.CellSvc.{Server, Reply, PlayerHandoffState}
use mmo.CellSvc.Handoff.{
  Clock, prepare_player_handoff, accept_player_handoff, finalize_player_handoff,
}
use mmo.CellSvc.Handoff.Effects.{
  IsFor, prepare_player_handoff-IsFor, prepare_player_handoff-player_by_id,
  accept_player_handoff_joins,
}
use mmo.Forward.{
  Delivery, answered, unanswered, lost, Net, ForwardRequest, deliver, Forwarded, after_finalize,
  after_accept, after_payload, after_prepare, forward_dialled, forward_player_handoff,
}

module _ {F : Type 0} where
  -- The player is the entity e in the parent, or some entity in the child.
  abbrev pub IsKept : Text → Entity → Forwarded F → Type 0
  IsKept pid e ((p, c), r) =
      (get p.player_by_id pid ≡ some e) ⊎ ((e' : Entity) × (get c.player_by_id pid ≡ some e'))

  -- A successful answer is about a server where the player is.
  abbrev Joined : Server F → Text → Option Reply → Type 0
  Joined c pid none = Unit
  Joined c pid (some r) = r.ok ≡ true → (e : Entity) × (get c.player_by_id pid ≡ some e)

  after_finalize-IsKept :
      (p c : Server F) (pid : Text) (e new : Entity) (answer : Option Reply)
      → (e' : Entity) × (get c.player_by_id pid ≡ some e')
      → IsKept pid e (after_finalize p c new answer)
  after_finalize-IsKept p c pid e new none h = inr h
  after_finalize-IsKept p c pid e new (some r) h = inr h

  after_accept-IsKept :
      (net : Net F) (p c : Server F) (pid token : Text) (e : Entity) (answer : Option Reply)
      → get p.player_by_id pid ≡ some e
      → Joined c pid answer
      → IsKept pid e (after_accept net p c pid token answer)
  after_accept-IsKept net p c pid token e none h j = inl h
  after_accept-IsKept net p c pid token e (some r) h j =
      elim (Bool-cases (not r.ok || r.entity_id == 0)) [
        | inl bad ↦ rw bad (inl h)
        | inr good ↦
            let (p', final) = deliver net.finalizing p (finalize_player_handoff p pid token) in
            rw good (after_finalize-IsKept p' c pid e r.entity_id final (j (ground (arith, good))))
      ]

module _ {F : Type 0} ⦃fl : Float F⦄ where
  deliver-Joined :
      (d : Delivery) (c : Server F) (payload : PlayerHandoffState F)
      → get c.accepted_by_tk (trim_space payload.handoff_token) ≡ none
      → let result = deliver d c (accept_player_handoff c (some payload)) in
        Joined result.0 (trim_space payload.player_id) result.1
  deliver-Joined answered c payload new = λ good. (
    (accept_player_handoff c (some payload)).1.entity_id,
    accept_player_handoff_joins c payload new good,
  )
  deliver-Joined unanswered c payload new = tt
  deliver-Joined lost c payload new = tt

  after_payload-IsKept :
      (net : Net F) (pspec cspec : CellSpec F) (p c : Server F) (pid token message : Text)
      (good : Bool) (payload : Option (PlayerHandoffState F)) (e : Entity)
      → get p.player_by_id pid ≡ some e
      → get c.accepted_by_tk (trim_space token) ≡ none
      → trim_space pid ≡ pid
      → IsFor pid payload
      → IsKept pid e (after_payload net pspec cspec p c pid token message good payload)
  after_payload-IsKept net pspec cspec p c pid token message false payload e h new trim own = inl h
  after_payload-IsKept net pspec cspec p c pid token message true none e h new trim own = inl h
  after_payload-IsKept net pspec cspec p c pid token message true (some payload) e h new trim own =
      let sent = record payload {
        source_cell_id = pspec.id;
        target_cell_id = cspec.id;
        handoff_token = token;
      } in
      let (c', answer) = deliver net.accepting c (accept_player_handoff c (some sent)) in
      let same : trim_space payload.player_id ≡ pid = ap trim_space own ∙ trim in
      after_accept-IsKept net p c' pid token e answer h
        (subst (λ x. Joined c' x answer) same (deliver-Joined net.accepting c sent new))

  after_prepare-IsKept :
      (net : Net F) (pspec cspec : CellSpec F) (d : Delivery) (now : Clock) (p c : Server F)
      (child_id pid token : Text) (e : Entity)
      → get p.player_by_id pid ≡ some e
      → get p.prepared_by_tk (trim_space token) ≡ none
      → get c.accepted_by_tk (trim_space token) ≡ none
      → trim_space pid ≡ pid
      → let result = deliver d p (prepare_player_handoff p now pid child_id token) in
        IsKept pid e (after_prepare net pspec cspec result.0 c pid token result.1)
  after_prepare-IsKept net pspec cspec answered now p c child_id pid token e h fresh new trim =
      let (p', r) = prepare_player_handoff p now pid child_id token in
      after_payload-IsKept net pspec cspec p' c pid token r.message r.ok r.payload e
        (rw (prepare_player_handoff-player_by_id p now pid child_id token) h) new trim
        (subst (λ x. IsFor x r.payload) trim
          (prepare_player_handoff-IsFor p now pid child_id token fresh))
  after_prepare-IsKept net pspec cspec unanswered now p c child_id pid token e h fresh new trim =
      inl (rw (prepare_player_handoff-player_by_id p now pid child_id token) h)
  after_prepare-IsKept net pspec cspec lost now p c child_id pid token e h fresh new trim = inl h

  forward_dialled-IsKept :
      (net : Net F) (now : Clock) (pspec cspec : Option (CellSpec F)) (p c : Server F)
      (child_id pid token : Text) (e : Entity)
      → get p.player_by_id pid ≡ some e
      → get p.prepared_by_tk (trim_space token) ≡ none
      → get c.accepted_by_tk (trim_space token) ≡ none
      → trim_space pid ≡ pid
      → IsKept pid e (forward_dialled net now pspec cspec p c child_id pid token)
  forward_dialled-IsKept net now none cspec p c child_id pid token e h fresh new trim = inl h
  forward_dialled-IsKept net now (some pspec) none p c child_id pid token e h fresh new trim = inl h
  forward_dialled-IsKept net now (some pspec) (some cspec) p c child_id pid token e h fresh new
        trim =
      after_prepare-IsKept net pspec cspec net.preparing now p c child_id pid token e h fresh new
        trim

  -- For a player of the parent, with ids that have no space around them and a token that neither cell
  -- has seen, a handoff ends with the player in the parent as the same entity or in the child,
  -- wherever dialling, a call or an answer fails and whatever the cells refuse.
  pub forward_player_handoff-IsKept :
      (net : Net F) (now : Clock) (parent child : Server F) (req : ForwardRequest) (e : Entity)
      → trim_space req.player_id ≡ req.player_id
      → trim_space req.handoff_token ≡ req.handoff_token
      → get parent.player_by_id req.player_id ≡ some e
      → get parent.prepared_by_tk req.handoff_token ≡ none
      → get child.accepted_by_tk req.handoff_token ≡ none
      → IsKept req.player_id e (forward_player_handoff net now parent child req)
  unfolding forward_player_handoff
  forward_player_handoff-IsKept net now parent child req e trim trim_token h fresh new =
      let parent_id = trim_space req.parent_cell_id in
      let child_id = trim_space req.child_cell_id in
      let pid = req.player_id in
      let token = req.handoff_token in
      elim (Bool-cases
        (is_empty parent_id || is_empty child_id || is_empty pid || is_empty token)) [
          | inl e ↦ rw (trim, trim_token, e) (inl h)
          | inr given ↦ elim (Bool-cases (parent_id == child_id)) [
            | inl same ↦ rw (trim, trim_token, given, same) (inl h)
            | inr apart ↦
                rw (trim, trim_token, given, apart)
                  (forward_dialled-IsKept net now net.parent_spec net.child_spec parent child
                    child_id pid token e h (rw trim_token fresh) (rw trim_token new) trim)
          ]
        ]
