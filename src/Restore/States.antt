-- ===== src/Restore/States.antt =====
-- searchPathState() of src/restore.c: which point of a history is restored.
use nano_backup.Prelude.{
  ℕ, ◌≤◌, ◌<◌, ◌≡◌, refl, arith, Bool-cases, [], ◌∷◌, ◌++◌, All, leb, ==_iff, Option, none, some,
  ◌⊎◌, inl, inr,
}
use nano_backup.Hint.{bpol_track}
use nano_backup.Metadata.{PathState, Point, PathHistory, Node, Metadata, backup_at}
use nano_backup.Restore.{search_point, search_path_state}

-- The state of the first point that is at least as old as the requested backup, or none if all
-- points are newer. A higher id means an older backup.
abbrev pub FoundPoint : Metadata → ℕ → PathHistory → Option PathState → Type 0
FoundPoint m id history result =
    ((newer : PathHistory) × (point : Point) × (older : PathHistory) × (history
        ≡ newer ++ (point ∷ older))
      × All (λ p. (backup_at m p.backup).id < id) newer
      × (id ≤ (backup_at m point.backup).id)
      × (result ≡ some point.state))
    ⊎ (All (λ p. (backup_at m p.backup).id < id) history × (result ≡ none))

search_point-FoundPoint :
    (m : Metadata) (id : ℕ) (history : PathHistory)
    → FoundPoint m id history (search_point m id history)
unfolding search_point
search_point-FoundPoint m id [] = inr (tt, refl)
search_point-FoundPoint m id (point ∷ older) =
    elim (Bool-cases (leb id (backup_at m point.backup).id)) [
      | inl e ↦ inl ([], point, older, refl, tt, ground arith, rw e refl)
      | inr e ↦
          let newer : (backup_at m point.backup).id < id = ground arith in
          elim (search_point-FoundPoint m id older) [
            | inl (before, p, after, split, all, old, found) ↦
                inl (point ∷ before, p, after, rw split refl, (newer, all), old, rw e found)
            | inr (all, found) ↦ inr ((newer, all), rw e found)
          ]
    ]

-- searchPathState() on a tracked node finds the state that the path had at the requested backup: the
-- state of the first history point whose backup id is not below the requested one, all points before
-- it being newer; it finds none exactly when all points are newer.
pub search_path_state-FoundPoint :
    (m : Metadata) (id : ℕ) (n : Node)
    → n.policy ≡ bpol_track
    → FoundPoint m id n.history (search_path_state m id n)
unfolding search_path_state
search_path_state-FoundPoint m id n h =
    let e = (==_iff n.policy bpol_track).1 h in rw e (search_point-FoundPoint m id n.history)
