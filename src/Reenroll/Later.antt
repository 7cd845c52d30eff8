-- ===== src/Reenroll/Later.antt =====
-- What the decisions keep when other volumes are asked about.
use tpm2_autoenroll.Base.{
  Bool-cases, is_empty, set, Bytes, equal, equal_iff, ◌≡◌, sym, ap, ◌∙◌, ◌≢◌, inl, inr, true, false,
  not, ◌&&◌, List, arith,
}
use tpm2_autoenroll.Acquire.{terminating}
use tpm2_autoenroll.Config.{Volume}
use tpm2_autoenroll.Consent.{
  Decisions, is_member, add_member, declined, decline, accepted, accept, Answer, no_, yes_, always,
}
use tpm2_autoenroll.Consent
use tpm2_autoenroll.Os.{Os, Sys}
use tpm2_autoenroll.Preflight.{Plan}
use tpm2_autoenroll.Reenroll.{heed, ask_human, may_enroll}

-- What is in a set stays in it, and what is put into it is the new member only.
is_member-keeps :
    (state other : Bytes) (set : List Bytes)
    → is_member state set ≡ true
    → is_member state (add_member other set) ≡ true
unfolding is_member add_member
is_member-keeps state other set h = elim (Bool-cases (is_member other set)) [
  | inl e ↦ rw (add_member, e) h
  | inr e ↦ rw (add_member, e) (ground (arith, h))
]

is_member-others :
    (state other : Bytes) (set : List Bytes)
    → equal other state ≡ false
    → is_member state set ≡ false
    → is_member state (add_member other set) ≡ false
unfolding is_member add_member
is_member-others state other set apart h = elim (Bool-cases (is_member other set)) [
  | inl e ↦ rw (add_member, e) h
  | inr e ↦ rw (add_member, e) (ground (arith, h, apart))
]

-- Decisions that come later: other volumes have been asked about in between.
pub data Later (os : Os) : Decisions → Decisions → Type 0 where
  at_once : {d : Decisions} → Later os d d
  asked_too :
      {d e : Decisions} (plan : Plan) (config : Volume) (s : Sys os)
      → Later os d e
      → Later os d (may_enroll os plan config e s).0.1

-- What a question does to the decisions for a state: a refusal stays, and so does an agreement.
heed-declined :
    (a : Answer) (asked state : Bytes) (d : Decisions)
    → declined d state ≡ true
    → declined (heed a asked d).1 state ≡ true
unfolding heed declined decline accept
heed-declined no_ asked state d h = elim (Bool-cases (is_empty asked)) [
  | inl e ↦ rw (heed, e) h
  | inr e ↦ rw (heed, e) (is_member-keeps state asked d.declines h)
]
heed-declined yes_ asked state d h = h
heed-declined always asked state d h = h

-- A state that is accepted for good, and not declined.
unfoldable pub Settled : Bytes → Decisions → Type 0
Settled state d = (accepted d state ≡ true) × (declined d state ≡ false)

heed-Settled :
    (a : Answer) (asked state : Bytes) (d : Decisions)
    → equal asked state ≡ false
    → Settled state d
    → Settled state (heed a asked d).1
unfolding heed declined decline accepted accept Settled
heed-Settled no_ asked state d apart h = elim (Bool-cases (is_empty asked)) [
  | inl e ↦ rw (heed, e) h
  | inr e ↦ rw (heed, e) ((h.0, is_member-others state asked d.declines apart h.1))
]
heed-Settled yes_ asked state d apart h = h
heed-Settled always asked state d apart h = (is_member-keeps state asked d.accepts h.0, h.1)

module _ {os : Os} (plan : Plan) (config : Volume) (d : Decisions) (s : Sys os)
    (state : Bytes) where
  may_enroll_keeps :
      (Q : Decisions → Type 0)
      → Q d
      → (accepted d plan.state ≡ false → (a : Answer) → Q (heed a plan.state d).1)
      → Q (may_enroll os plan config d s).0.1
  unfolding may_enroll ask_human
  may_enroll_keeps Q now heeded =
      let asked = terminating os s in
      elim (Bool-cases (not (is_empty plan.state) && declined d plan.state)) [
        | inl e ↦ rw (may_enroll, e) now
        | inr e ↦ elim (Bool-cases (accepted d plan.state)) [
          | inl f ↦ rw (may_enroll, e, f) now
          | inr f ↦ elim (Bool-cases asked.0) [
            | inl g ↦ rw (may_enroll, e, f, ask_human, g) now
            | inr g ↦
                rw (may_enroll, e, f, ask_human, g)
                  (heeded f
                    (Consent.ask os config.name config.device config.pcrs config.bank asked.1).0)
          ]
        ]
      ]

  may_enroll_keeps_declined :
      declined d state ≡ true → declined (may_enroll os plan config d s).0.1 state ≡ true
  may_enroll_keeps_declined h =
      may_enroll_keeps (λ e. declined e state ≡ true) h
        (λ f a. heed-declined a plan.state state d h)

  may_enroll-Settled : Settled state d → Settled state (may_enroll os plan config d s).0.1
  unfolding Settled
  may_enroll-Settled h =
      may_enroll_keeps (Settled state) h (λ f a. heed-Settled a plan.state state d (apart f) h)
    where
      apart : accepted d plan.state ≡ false → equal plan.state state ≡ false
      apart f = elim (Bool-cases (equal plan.state state)) [
        | inr e ↦ e
        | inl e ↦
            absurd
              (conflict (sym h.0 ∙ ap (accepted d) (sym ((equal_iff plan.state state).0 e)) ∙ f))
      ]
        where
          conflict : true ≢ false
          conflict k = cc

pub Later-declined :
    {os : Os} {d e : Decisions} (state : Bytes)
    → Later os d e
    → declined d state ≡ true
    → declined e state ≡ true
Later-declined state at_once h = h
Later-declined state (asked_too plan config s more) h =
    may_enroll_keeps_declined plan config _ s state (Later-declined state more h)

pub Later-Settled :
    {os : Os} {d e : Decisions} (state : Bytes) → Later os d e → Settled state d → Settled state e
Later-Settled state at_once h = h
Later-Settled state (asked_too plan config s more) h =
    may_enroll-Settled plan config _ s state (Later-Settled state more h)
