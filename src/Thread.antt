-- ===== src/Thread.antt =====
-- `platform_thread` of src/breeze-js/platform_thread.cc and headers/breeze-js/platform_thread.h, with
-- pthreads; the code for Windows keeps a null handle where this one keeps `joinable_`.
--
-- `live` holds the threads of the system that have been created and not joined. The handle of a new
-- thread is `pick live`, and the codes that the calls of pthreads return are arguments: 0 is success.
-- A call on an object that does not exist is none; in the model it changes nothing.
pub mod Objects
pub mod Owned
pub mod Ids
mod Tests
use breeze_js.Prelude.{
  ℕ, zero, suc, Bool, true, false, not, ◌&&◌, List, [], ◌∷◌, ◌++◌, Option, none, some, ◌==◌, ltb,
  if◌then◌else◌, length, get_or, remove_if,
}

pub record Thread : Type 0 where
  pub handle : ℕ
  pub joinable : Bool

-- `platform_thread()`, and what `reset` leaves.
abbrev pub blank : Thread
blank = record { handle = 0; joinable = false }

pub record System : Type 0 where
  pub objects : List Thread
  pub live : List ℕ

abbrev pub at : List Thread → ℕ → Thread
at ts i = get_or ts i blank

unfoldable pub set_at : List Thread → ℕ → Thread → List Thread
set_at [] i t = []
set_at (x ∷ xs) zero t = t ∷ xs
set_at (x ∷ xs) (suc i) t = x ∷ set_at xs i t

-- What a call comes to: it returns, it throws a system_error with its code, or it ends the program.
pub data Outcome : Type 0 where
  returns : System → Outcome
  throws : ℕ → System → Outcome
  terminates : Outcome

-- The codes that pthread_attr_init, pthread_attr_setstacksize and pthread_create return.
pub record CreateCodes : Type 0 where
  pub attr_init : ℕ
  pub attr_setstacksize : ℕ
  pub create : ℕ

-- EINVAL, of `std::errc::invalid_argument`.
abbrev pub invalid_argument : ℕ
invalid_argument = 22

module _ (pick : List ℕ → ℕ) where
  -- platform_thread(fn, stack_size_bytes)
  unfoldable pub create : ℕ → CreateCodes → System → Outcome
  create stack_size codes s =
      if not (codes.attr_init == 0)
      then throws codes.attr_init s
      else if not (stack_size == 0) && not (codes.attr_setstacksize == 0)
      then throws codes.attr_setstacksize s
      else if not (codes.create == 0)
      then throws codes.create s
      else returns (record {
        objects = s.objects ++ record { handle = pick s.live; joinable = true } ∷ [];
        live = pick s.live ∷ s.live;
      })

-- The moved-from object keeps its handle and is joinable no more.
abbrev pub moved_from : Thread → Thread
moved_from t = record t { joinable = false }

-- platform_thread(platform_thread &&other): the new object is not joinable when it is assigned to.
unfoldable pub move_construct : ℕ → System → Outcome
unfolding set_at
move_construct other s =
    let t = at s.objects other in
    returns (record s { objects = set_at s.objects other (moved_from t) ++ t ∷ [] })

-- operator=(platform_thread &&other)
unfoldable pub move_assign : ℕ → ℕ → System → Outcome
unfolding set_at
move_assign this other s =
    let t = at s.objects other in
    if this == other
    then returns s
    else if (at s.objects this).joinable
    then terminates
    else returns (record s { objects = set_at (set_at s.objects this t) other (moved_from t) })

-- ~platform_thread()
unfoldable pub destroy : ℕ → System → Outcome
destroy this s = if (at s.objects this).joinable then terminates else returns s

-- join, with the code that pthread_join returns.
unfoldable pub join : ℕ → ℕ → System → Outcome
unfolding set_at
join this code s =
    let t = at s.objects this in
    if not t.joinable
    then throws invalid_argument s
    else if not (code == 0)
    then throws code s
    else returns (record {
      objects = set_at s.objects this blank;
      live = remove_if (λ h. h == t.handle) s.live;
    })

-- An `id` is the handle, or none for an id that is not valid.
unfoldable pub get_id : Thread → Option ℕ
get_id t = if not t.joinable then none else some t.handle

-- `operator==` of ids.
abbrev pub id_eq : Option ℕ → Option ℕ → Bool
id_eq none none = true
id_eq (some a) (some b) = a == b
id_eq _ _ = false

-- One call in the life of the objects.
pub data Call : Type 0 where
  default_construct : Call
  creates : ℕ → CreateCodes → Call
  move_constructs : ℕ → Call
  move_assigns : ℕ → ℕ → Call
  destroys : ℕ → Call
  joins : ℕ → ℕ → Call

module _ (pick : List ℕ → ℕ) where
  unfoldable pub call : Call → System → Outcome
  unfolding create move_construct move_assign destroy join
  call default_construct s = returns (record s { objects = s.objects ++ blank ∷ [] })
  call (creates stack_size codes) s = create pick stack_size codes s
  call (move_constructs other) s =
      if ltb other (length s.objects) then move_construct other s else returns s
  call (move_assigns this other) s =
      if ltb this (length s.objects) && ltb other (length s.objects)
      then move_assign this other s
      else returns s
  call (destroys this) s = destroy this s
  call (joins this code) s = join this code s

  -- A run of calls, whose exceptions are caught, to the end or to the end of the program.
  unfoldable pub calls : List Call → System → Option System
  unfolding call
  calls [] s = some s
  calls (c ∷ cs) s = elim (call c s) [
    | returns s' ↦ calls cs s'
    | throws code s' ↦ calls cs s'
    | terminates ↦ none
  ]
