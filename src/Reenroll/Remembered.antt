-- ===== src/Reenroll/Remembered.antt =====
-- An answer to the consent prompt holds for the volumes that come later with the same state.
use tpm2_autoenroll.Base.{
  Bool-cases, is_empty, set, Bytes, equal_refl, ◌≡◌, refl, ◌∙◌, ◌≢◌, inl, inr, Bool, true, false,
  not, ◌&&◌, none, some, List, arith,
}
use tpm2_autoenroll.Acquire.{terminating}
use tpm2_autoenroll.Config.{Volume}
use tpm2_autoenroll.Consent.{
  Decisions, is_member, add_member, declined, decline, accepted, accept, Answer, no_, yes_, always,
}
use tpm2_autoenroll.Consent
use tpm2_autoenroll.Os.{Os, Sys}
use tpm2_autoenroll.Preflight.{Plan}
use tpm2_autoenroll.Reenroll.Later.{Later, Settled, Later-declined, Later-Settled}
use tpm2_autoenroll.Reenroll.{
  heed, ask_human, may_enroll, declined_now, already_declined, before_prompt,
}

is_member-add_member :
    (state : Bytes) (set : List Bytes) → is_member state (add_member state set) ≡ true
unfolding is_member add_member
is_member-add_member state set = elim (Bool-cases (is_member state set)) [
  | inl e ↦ rw (add_member, e) e
  | inr e ↦ rw (add_member, e, is_member, equal_refl state) refl
]

declined-decline : (state : Bytes) (d : Decisions) → declined (decline state d) state ≡ true
unfolding declined decline accepted accept
declined-decline state d = is_member-add_member state d.declines

accepted-accept : (state : Bytes) (d : Decisions) → accepted (accept state d) state ≡ true
unfolding declined decline accepted accept
accepted-accept state d = is_member-add_member state d.accepts

declined-accept :
    (state : Bytes) (d : Decisions) → declined (accept state d) state ≡ declined d state
unfolding declined decline accepted accept
declined-accept state d = refl

heed-declined_now :
    (a : Answer) (state : Bytes) (d : Decisions)
    → is_empty state ≡ false
    → (heed a state d).0 ≡ some declined_now
    → declined (heed a state d).1 state ≡ true
unfolding heed
heed-declined_now no_ state d e h = rw (heed, e) (declined-decline state d)
heed-declined_now yes_ state d e h = cc
heed-declined_now always state d e h = cc

none≢some : {A : Type 0} {a : A} → none ≢ some a
none≢some e = cc

guarded : {e d : Bool} → e ≡ false → d ≡ true → (not e && d) ≡ true
guarded h k = ground arith

passed : (e : Bool) {d : Bool} → d ≡ false → (not e && d) ≡ false
passed e k = ground arith

stopped : some before_prompt ≢ some declined_now
stopped e = cc

module _ {os : Os} (plan : Plan) (config : Volume) (decided : Decisions) (s : Sys os) where
  -- The decisions that the first volume leaves.
  abbrev after : Decisions
  after = (may_enroll os plan config decided s).0.1

  now_declined :
      is_empty plan.state ≡ false
      → (may_enroll os plan config decided s).0.0 ≡ some declined_now
      → declined after plan.state ≡ true
  unfolding may_enroll ask_human
  now_declined full h =
      let asked = terminating os s in
      elim (Bool-cases (declined decided plan.state)) [
        | inl e ↦ rw (after, may_enroll, guarded full e) e
        | inr e ↦
            let e' = passed (is_empty plan.state) e in
            elim (Bool-cases (accepted decided plan.state)) [
              | inl f ↦ absurd (none≢some (rw (may_enroll, e', f) at h))
              | inr f ↦ elim (Bool-cases asked.0) [
                | inl g ↦ absurd (stopped (rw (may_enroll, e', f, ask_human, g) at h))
                | inr g ↦
                    rw (after, may_enroll, e', f, ask_human, g)
                      (heed-declined_now _ plan.state decided full
                        (rw (may_enroll, e', f, ask_human, g) at h))
              ]
            ]
      ]

  -- When the re-enrollment of a volume is declined, and its state is not empty, then no later volume
  -- with that state is asked about, whatever volumes were asked about in between: it is declined at once,
  -- without a call to the system.
  pub may_enroll-declined :
      is_empty plan.state ≡ false
      → (may_enroll os plan config decided s).0.0 ≡ some declined_now
      → (decided' : Decisions) → Later os after decided'
      → (plan' : Plan) (config' : Volume) (s' : Sys os) → plan'.state ≡ plan.state
      → may_enroll os plan' config' decided' s' ≡ ((some already_declined, decided'), s')
  unfolding may_enroll
  may_enroll-declined full h decided' later plan' config' s' same =
      let still_declined = Later-declined plan.state later (now_declined full h) in
      rw (may_enroll, same, guarded full still_declined)

  now_accepted :
      (terminating os s).0 ≡ false
      → (Consent.ask os config.name config.device config.pcrs config.bank (terminating os s).1).0
        ≡ always
      → declined decided plan.state ≡ false
      → (accepted after plan.state ≡ true) × (declined after plan.state ≡ false)
  unfolding may_enroll ask_human heed
  now_accepted going said fresh =
      let e' = passed (is_empty plan.state) fresh in
      elim (Bool-cases (accepted decided plan.state)) [
        | inl f ↦ rw (after, may_enroll, e', f) (f, fresh)
        | inr f ↦
            rw (after, may_enroll, e', f, ask_human, going, said, heed)
              (accepted-accept plan.state decided, declined-accept plan.state decided ∙ fresh)
      ]

  -- When the answer for a volume whose state was not declined before is "always", then each later volume
  -- with that state may be re-enrolled at once, without a call to the system, whatever volumes were
  -- asked about in between.
  pub may_enroll-always :
      (terminating os s).0 ≡ false
      → (Consent.ask os config.name config.device config.pcrs config.bank (terminating os s).1).0
        ≡ always
      → declined decided plan.state ≡ false
      → (decided' : Decisions) → Later os after decided'
      → (plan' : Plan) (config' : Volume) (s' : Sys os) → plan'.state ≡ plan.state
      → may_enroll os plan' config' decided' s' ≡ ((none, decided'), s')
  unfolding may_enroll Settled
  may_enroll-always going said fresh decided' later plan' config' s' same =
      let now = Later-Settled plan.state later (now_accepted going said fresh) in
      rw (may_enroll, same, passed (is_empty plan.state) now.1, now.0)
