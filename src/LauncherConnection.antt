-- ===== src/LauncherConnection.antt =====
-- server/LauncherConnection.cxx: the heartbeat between the server and the launcher. Sockets are left
-- out; `time(NULL)` is the argument `now`, in seconds.
use fugaku_particle_filter.Prelude.{
  ℕ, ◌+◌, ◌≤◌, ◌<◌, ◌≡◌, refl, ap, Bool-cases, inl, inr, Bool, true, false, ltb, arith,
  if◌then◌else◌, List, [], ◌∷◌,
}

pub record LauncherConnection : Type 0 where
  pub due_date_launcher : ℕ
  pub next_message_date_to_launcher : ℕ
  -- The hello messages that went out, and whether the launcher has been told to stop.
  pub hellos : ℕ
  pub stopped : Bool

abbrev pub launcher_timeout : ℕ
launcher_timeout = 60

abbrev pub launcher_ping_interval : ℕ
launcher_ping_interval = 8

unfoldable pub update_launcher_due_date : ℕ → LauncherConnection → LauncherConnection
update_launcher_due_date now l = record l { due_date_launcher = now + launcher_timeout }

unfoldable pub check_launcher_due_date : ℕ → LauncherConnection → Bool
check_launcher_due_date now l = ltb now l.due_date_launcher

-- Any message of the launcher counts as a sign of life.
unfoldable pub receive_text : ℕ → LauncherConnection → LauncherConnection
unfolding update_launcher_due_date
receive_text now l = update_launcher_due_date now l

unfoldable pub update_launcher_next_message_date : ℕ → LauncherConnection → LauncherConnection
update_launcher_next_message_date now l = record l {
  next_message_date_to_launcher = now + launcher_ping_interval;
}

unfoldable pub ping : ℕ → LauncherConnection → LauncherConnection
unfolding update_launcher_next_message_date
ping now l =
    if ltb l.next_message_date_to_launcher now
    then update_launcher_next_message_date now (record l { hellos = l.hellos + 1 })
    else l

-- The constructor; the message with the server's name is the first that goes out.
unfoldable pub connect : ℕ → LauncherConnection
unfolding update_launcher_next_message_date
connect now = update_launcher_next_message_date now (record {
  due_date_launcher = now + launcher_timeout;
  next_message_date_to_launcher = 0;
  hellos = 0;
  stopped = false;
})

-- The destructor.
unfoldable pub disconnect : LauncherConnection → LauncherConnection
disconnect l = record l { stopped = true }

unfoldable pub ping_at : List ℕ → LauncherConnection → LauncherConnection
unfolding ping
ping_at [] l = l
ping_at (now ∷ times) l = ping_at times (ping now l)

-- No time is later than `last`.
abbrev pub AllUpto : ℕ → List ℕ → Type 0
AllUpto last [] = Unit {0}
AllUpto last (now ∷ times) = (now ≤ last) × AllUpto last times

ping-waits :
    (now : ℕ) (l : LauncherConnection) → now ≤ l.next_message_date_to_launcher → ping now l ≡ l
unfolding ping
ping-waits now l h = ground (arith, h)

ping_at-waits :
    (times : List ℕ) (l : LauncherConnection)
    → AllUpto l.next_message_date_to_launcher times
    → ping_at times l ≡ l
unfolding ping_at
ping_at-waits [] l h = refl
ping_at-waits (now ∷ times) l h = rw (ping-waits now l (h.0)) (ping_at-waits times l (h.1))

ping-due :
    (now : ℕ) (l : LauncherConnection)
    → l.next_message_date_to_launcher < now
    → ping now l ≡ record l {
      hellos = l.hellos + 1;
      next_message_date_to_launcher = now + launcher_ping_interval;
    }
unfolding ping update_launcher_next_message_date
ping-due now l h = ground (arith, h)

AllUpto-mono : (a b : ℕ) (times : List ℕ) → a ≤ b → AllUpto a times → AllUpto b times
AllUpto-mono a b [] le h = tt
AllUpto-mono a b (now ∷ times) le h = (omega (arith, h.0), AllUpto-mono a b times le (h.1))

abbrev pub AllFrom : ℕ → List ℕ → Type 0
AllFrom first [] = Unit {0}
AllFrom first (now ∷ times) = (first ≤ now) × AllFrom first times

-- Of calls within nine seconds, one sends a hello at most.
ping_at-window :
    (first : ℕ) (times : List ℕ) (l : LauncherConnection)
    → AllFrom first times
    → AllUpto (first + launcher_ping_interval) times
    → (ping_at times l).hellos ≤ l.hellos + 1
unfolding ping_at
ping_at-window first [] l from upto = omega arith
ping_at-window first (now ∷ times) l from upto =
    elim (Bool-cases (ltb l.next_message_date_to_launcher now)) [
      | inl t ↦
          let due = ping-due now l (ground (arith, t)) in
          let later =
            ping_at-waits times
              (record l {
                hellos = l.hellos + 1;
                next_message_date_to_launcher = now + launcher_ping_interval;
              })
              (AllUpto-mono (first + launcher_ping_interval) (now + launcher_ping_interval) times
                (omega (arith, from.0)) (upto.1)) in
          rw (due, later, ping_at) (omega arith)
      | inr f ↦
          rw (ping-waits now l (ground (arith, f)), ping_at)
            (ping_at-window first times l (from.1) (upto.1))
    ]

-- The calls of `ping` in the nine seconds from `now` on, the first at `now` and the others at whatever
-- times up to `now + 8`, send one hello at most. If the first is due, they send just one.
pub ping_at-lem :
    (now : ℕ) (times : List ℕ) (l : LauncherConnection)
    → AllFrom now times
    → AllUpto (now + launcher_ping_interval) times
    → ((ping_at (now ∷ times) l).hellos ≤ l.hellos + 1)
      × (l.next_message_date_to_launcher < now → (ping_at (now ∷ times) l).hellos ≡ l.hellos + 1)
unfolding ping_at
ping_at-lem now times l from upto = (
  ping_at-window now (now ∷ times) l (omega arith, from) (omega arith, upto),
  (λ due. rw (ping-due now l due, ping_at) (ap (λ z. z.hellos) (ping_at-waits times _ upto))),
)
