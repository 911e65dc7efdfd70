-- ===== src/Locks/Keeping.antt =====
-- Lists of steps that leave the holds of a goroutine as they were.
use tcabci_read_go_client.Prelude.{
  ℕ, zero, suc, ◌≡◌, refl, ◌∙◌, Bool, true, some, List, [], ◌∷◌, ◌++◌, arith, ◌==◌, all,
}
use tcabci_read_go_client.Locks.{
  mut, fingerprints_mu, rank, index, same, Hold, release, effect, Instr, cancels, works,
}
use tcabci_read_go_client.Locks.Programs.{times, sequence, reads_state, verify}
use tcabci_read_go_client.Locks.Discipline.{above, allowed, follow, follow-append}

-- A list of steps that a goroutine with such holds may take, and that leaves it with them.
abbrev pub Keeps : Bool → List Hold → List Instr → Type 0
Keeps slot held p =
    (c : List ℕ)
    → (m : List ℕ) × (follow slot p (record { held = held; cancelled = c })
        ≡ some (record { held = held; cancelled = m }))

pub Keeps-append :
    (slot : Bool) (held : List Hold) (p q : List Instr)
    → Keeps slot held p
    → Keeps slot held q
    → Keeps slot held (p ++ q)
Keeps-append slot held p q hp hq c =
    let r = hp c in let s = hq r.0 in (s.0, follow-append slot p q _ _ r.1 ∙ s.1)

pub Keeps-times :
    (slot : Bool) (held : List Hold) (n : ℕ) (p : List Instr)
    → Keeps slot held p
    → Keeps slot held (times n p)
unfolding times follow
Keeps-times slot held zero p h = λ c. (c, refl)
Keeps-times slot held (suc n) p h =
    Keeps-append slot held p (times n p) h (Keeps-times slot held n p h)

pub Keeps-sequence :
    {A : Type 0} (slot : Bool) (held : List Hold) (body : A → List Instr) (xs : List A)
    → ((x : A) → Keeps slot held (body x))
    → Keeps slot held (sequence body xs)
unfolding sequence follow
Keeps-sequence slot held body [] h = λ c. (c, refl)
Keeps-sequence slot held body (x ∷ xs) h =
    Keeps-append slot held (body x) (sequence body xs) (h x) (Keeps-sequence slot held body xs h)

pub works_Keeps : (slot : Bool) (held : List Hold) → Keeps slot held (works ∷ [])
unfolding follow allowed effect
works_Keeps slot held c = (c, refl)

pub reads_state-Keeps :
    (slot : Bool) (held : List Hold) → all (above mut) held ≡ true → Keeps slot held reads_state
unfolding follow allowed effect reads_state rank same index release
reads_state-Keeps slot held e c = (c, rw e refl)

pub verify-Keeps :
    (slot : Bool) (held : List Hold)
    → all (above fingerprints_mu) held ≡ true
    → Keeps slot held verify
unfolding follow allowed effect verify rank same index release
verify-Keeps slot held e c = (c, rw e refl)

pub ==_refl : (n : ℕ) → (n == n) ≡ true
==_refl n = ground arith

pub cancels_Keeps : (slot : Bool) (held : List Hold) (n : ℕ) → Keeps slot held (cancels n ∷ [])
unfolding follow allowed effect
cancels_Keeps slot held n c = (n ∷ c, refl)
