-- ===== src/Child/Bounds.antt =====
-- How much of a child's output is kept.
use Prim.Native.Nat.{min}
use tpm2_autoenroll.Base.{
  ◌==◌, Bool-cases, length, take, length-append, length-take, ℕ, ◌-◌, ◌≤◌, inl, inr, not, Option,
  none, some, [], ◌∷◌, arith,
}
use tpm2_autoenroll.Base.Results.{Holds, bind-Holds, Holds-eq}
use tpm2_autoenroll.Child.{
  stderr_cap, chunk, Pipe, Collecting, drain, drain_ready, probe, fill, wake,
}
use tpm2_autoenroll.Os.{
  ReadEvent, got, interrupted, read_error, Wakeup, polled, poll_interrupted, poll_failed,
}

probe-Holds :
    (cap : ℕ) (read : ReadEvent) (p : Pipe)
    → length p.into ≤ cap
    → Holds (λ q. length q.into ≤ cap) (probe cap read p)
unfolding probe
probe-Holds cap (got []) p h = h
probe-Holds cap (got (b ∷ bs)) p h = tt
probe-Holds cap interrupted p h = h
probe-Holds cap (read_error e) p h = tt

fill-Holds :
    (cap : ℕ) (read : ReadEvent) (p : Pipe)
    → length p.into ≤ cap
    → Holds (λ q. length q.into ≤ cap) (fill cap read p)
unfolding fill
fill-Holds cap (got []) p h = h
fill-Holds cap (got (b ∷ bs)) p h =
    let room = min (cap - length p.into) chunk in
    omega (arith, length-append p.into (take room (b ∷ bs)), length-take room (b ∷ bs))
fill-Holds cap interrupted p h = h
fill-Holds cap (read_error e) p h = tt

drain_ready-Holds :
    (cap : ℕ) (read : Option ReadEvent) (p : Pipe)
    → length p.into ≤ cap
    → Holds (λ q. length q.into ≤ cap) (drain_ready cap read p)
unfolding drain_ready drain
drain_ready-Holds cap none p h = h
drain_ready-Holds cap (some read) p h = elim (Bool-cases (not p.is_open)) [
  | inl e ↦ rw e h
  | inr e ↦ elim (Bool-cases (length p.into == cap)) [
    | inl full ↦ rw (e, full) (probe-Holds cap read p h)
    | inr room ↦ rw (e, room) (fill-Holds cap read p h)
  ]
]

-- Neither buffer holds more than its capacity.
abbrev pub IsBounded : ℕ → Collecting → Type 0
IsBounded cap c = (length c.stdout.into ≤ cap) × (length c.stderr.into ≤ stderr_cap)

pub wake-Holds :
    (cap : ℕ) (w : Wakeup) (c : Collecting) → IsBounded cap c → Holds (IsBounded cap) (wake cap w c)
unfolding wake
wake-Holds cap (polled ended out err_) c h = bind-Holds _ (drain_ready cap out c.stdout) _ (λ p e.
    bind-Holds _ (drain_ready stderr_cap err_ c.stderr) _ (λ q e'. (
      Holds-eq _ _ (drain_ready-Holds cap out c.stdout h.0) e,
      Holds-eq _ _ (drain_ready-Holds stderr_cap err_ c.stderr h.1) e',
    )))
wake-Holds cap poll_interrupted c h = h
wake-Holds cap (poll_failed e) c h = tt
