-- ===== src/Syscalls/Spec/Shows.antt =====
-- How a view stands for the world.
use reference_monitor.Base.{
  ==_iff, All, Bool, Bool-cases, List, Option, false, false≢true, inl, inr, none, not, some, subst,
  sym, true, ℕ, ◌==◌, ◌↔◌, ◌∙◌, ◌≡◌, ◌≢◌, ◌⊎◌,
}
use reference_monitor.Access.Decision.{is_active}
use reference_monitor.Base.Int.{ℤ}
use reference_monitor.Blacklist.Unique.{Unique}
use reference_monitor.Monitor.{FilePath}
use reference_monitor.Monitor.Chain.{Cells, paths}
use reference_monitor.Monitor.Edit.{contains}
use reference_monitor.Monitor.Invariant.{Holds}
use reference_monitor.Password.{Sha256, hex}
use reference_monitor.Run.{Returns, Returns-mono, Run}
use reference_monitor.Syscalls.{World}
use reference_monitor.Syscalls.Grant.{Declined}
use reference_monitor.Syscalls.Keeps.{Inv}
use reference_monitor.Syscalls.Spec.{Fits, View, denied}

-- The world is well-formed, keeps the digest of `secret`, has off path twice in its list, and shows
-- the state and the paths of the view.
pub record Shows (sha : Sha256) (secret : List ℕ) (v : View) (w : World) : Type 0 where
  pub inv : Inv w
  pub kept : w.rf.password ≡ some (hex (sha.digest secret))
  pub unique : Unique (paths inv.cells)
  pub state : w.rf.state ≡ v.state
  pub protects : (q : FilePath) → contains q (paths inv.cells) ≡ v.protects q

-- `allowed` is true exactly for root with a string that has the digest of `secret`; for a call that
-- takes off password it can be anything.
abbrev pub Allowed : Sha256 → (secret : List ℕ) → (euid : ℕ) → Option (List ℕ) → Bool → Type 0
Allowed sha secret euid none allowed = Unit {0}
Allowed sha secret euid (some s) allowed =
    (allowed ≡ true) ↔ ((sha.digest s ≡ sha.digest secret) × (euid ≡ 0))

module _ (sha : Sha256) (secret : List ℕ) (v : View) (w : World) (sh : Shows sha secret v w) where
  -- The next world, with the list `ys`, shows the view `v'`.
  pub Shows-next :
      (v' : View) (w' : World) (ys : Cells)
      → Holds w'.rf ys
      → Unique (paths ys)
      → w'.rf.state ≡ w.rf.state
      → w'.rf.password ≡ w.rf.password
      → w'.probes ≡ w.probes
      → v'.state ≡ v.state
      → ((q : FilePath) → contains q (paths ys) ≡ v'.protects q)
      → Shows sha secret v' w'
  Shows-next v' w' ys h u st pw pr vs ps = record {
    inv = record {
      cells = ys;
      monitor = h;
      stored = sh.inv.stored;
      password = pw ∙ sh.inv.password;
      array = sh.inv.array;
      probes = pr ∙ sh.inv.probes;
      armed =
          subst (λ z. All (λ p. p.disabled ≡ not (is_active z)) sh.inv.array) (sym st) sh.inv.armed;
    };
    kept = pw ∙ sh.kept;
    unique = u;
    state = st ∙ sh.state ∙ sym vs;
    protects = ps;
  }

  pub Declined-Fits :
      (r : Run World ℤ)
      → Returns (Declined w) r
      → Returns (λ r w'. Shows sha secret v w' × Fits denied r) r
  Declined-Fits r h =
      Returns-mono (Declined w) _ r h
        (λ c w' (err, same). (subst (Shows sha secret v) (sym same) sh, err))

-- Without the permission, one of its two parts is missing.
pub not-Allowed :
    (sha : Sha256) (s secret : List ℕ) (euid : ℕ)
    → Allowed sha secret euid (some s) false
    → (sha.digest s ≢ sha.digest secret) ⊎ (euid ≢ 0)
not-Allowed sha s secret euid iff = elim (Bool-cases (euid == 0)) [
  | inl e ↦ inl (λ same. false≢true (iff.1 (same, (==_iff euid 0).0 e)))
  | inr e ↦ inr (λ zero_so. false≢true (sym e ∙ (==_iff euid 0).1 zero_so))
]
