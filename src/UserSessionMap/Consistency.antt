-- ===== src/UserSessionMap/Consistency.antt =====
-- Which of the two tables may be trusted: every session that has a user is that user's session.
use own_game_server.Prelude.{
  ℕ, ◌≡◌, inl, inr, true, false, none, some, arith, nat_beq, Option-cases,
}
use own_game_server.Assoc.{lookup, lookup-insert, lookup-erase, nat_eq}
use own_game_server.UserSessionMap.{UserSessionMap, empty_map, bind, unbind, unbind_by_session_id}

pub record IsConsistent (m : UserSessionMap) : Type 0 where
  pub back : (s u : ℕ) → lookup s m.session_to_user ≡ some u → lookup u m.user_to_session ≡ some s

pub IsConsistent-empty_map : IsConsistent empty_map
unfolding lookup
IsConsistent-empty_map = record { back = λ s u h. cc }

-- What a `bind` leaves in the session table.
pub bind_sessions :
    (m : UserSessionMap) (user_id session_id s : ℕ)
    → lookup s (bind m user_id session_id).session_to_user ≡ (elim (nat_beq session_id s) [
      | true ↦ some user_id
      | false ↦ elim (lookup user_id m.user_to_session) [
        | none ↦ lookup s m.session_to_user
        | some old ↦ elim (nat_beq old s) [ true ↦ none | false ↦ lookup s m.session_to_user ]
      ]
    ])
unfolding bind
bind_sessions m user_id session_id s = elim (Option-cases (lookup user_id m.user_to_session)) [
  | inl h ↦ rw (h, lookup-insert) (ground arith)
  | inr (old, h) ↦ rw (h, lookup-insert, lookup-erase) (ground arith)
]

pub bind_users :
    (m : UserSessionMap) (user_id session_id u : ℕ)
    → lookup u (bind m user_id session_id).user_to_session
      ≡ (elim (nat_beq user_id u) [ true ↦ some session_id | false ↦ lookup u m.user_to_session ])
unfolding bind
bind_users m user_id session_id u = rw lookup-insert (ground arith)

pub bind-IsConsistent :
    (m : UserSessionMap) (user_id session_id : ℕ)
    → IsConsistent m
    → IsConsistent (bind m user_id session_id)
bind-IsConsistent m user_id session_id v = record {
  back = λ s u h.
      ground (
        arith,
        bind_sessions m user_id session_id s,
        bind_users m user_id session_id u,
        v.back s u,
      );
}

pub unbind-IsConsistent :
    (m : UserSessionMap) (user_id : ℕ) → IsConsistent m → IsConsistent (unbind m user_id).0
unfolding unbind
unbind-IsConsistent m user_id v = elim (Option-cases (lookup user_id m.user_to_session)) [
  | inl h ↦ rw (h, unbind) v
  | inr (old, h) ↦
      rw (h, unbind)
        (record {
          back = λ s u e. ground (
            arith,
            lookup-erase old s m.session_to_user,
            lookup-erase user_id u m.user_to_session,
            v.back s u,
          );
        })
]

pub unbind_by_session_id-IsConsistent :
    (m : UserSessionMap) (session_id : ℕ)
    → IsConsistent m
    → IsConsistent (unbind_by_session_id m session_id).0
unfolding unbind_by_session_id
unbind_by_session_id-IsConsistent m session_id v =
    elim (Option-cases (lookup session_id m.session_to_user)) [
      | inl h ↦ rw (h, unbind_by_session_id) v
      | inr (uid, h) ↦
          rw (h, unbind_by_session_id)
            (record {
              back = λ s u e. ground (
                arith,
                lookup-erase session_id s m.session_to_user,
                lookup-erase uid u m.user_to_session,
                v.back s u,
                v.back session_id uid,
              );
            })
    ]
