-- ===== src/Favorites.antt =====
-- app/routers/favorites.py: the agents that a wallet has bookmarked. The sign-in and CSRF
-- dependencies of the handlers are in Auth; a request that raises leaves the two tables as they are.
pub mod Kept
use bnb_agent_marketplace.Base.{
  ℕ, Text, text_eq, Bool, ◌&&◌, leb, Option, none, some, List, [], ◌∷◌, ◌++◌, if◌then◌else◌,
  is_some,
}
use bnb_agent_marketplace.Errors.{Result, ok, err, not_found, library_error}
use bnb_agent_marketplace.Score.Track.{member}

pub record Favorite : Type 0 where
  pub address : Text
  pub agent_id : Text
  pub created_at : ℕ

-- The ids of the cached agents, and the table.
pub record FavoriteStore : Type 0 where
  pub agents : List Text
  pub favorites : List Favorite

-- The primary key.
unfoldable pub is_row : Text → Text → Favorite → Bool
unfolding text_eq
is_row address agent_id row = text_eq row.address address && text_eq row.agent_id agent_id

unfoldable pub find_favorite : Text → Text → List Favorite → Option Favorite
unfolding is_row
find_favorite address agent_id [] = none
find_favorite address agent_id (row ∷ rows) =
    if is_row address agent_id row then some row else find_favorite address agent_id rows

-- `order_by(created_at.desc())`
unfoldable pub insert_newest : Favorite → List Favorite → List Favorite
insert_newest row [] = row ∷ []
insert_newest row (other ∷ rows) =
    if leb other.created_at row.created_at
    then row ∷ other ∷ rows
    else other ∷ insert_newest row rows

unfoldable pub list_favorites : Text → List Favorite → List Favorite
unfolding insert_newest text_eq
list_favorites address [] = []
list_favorites address (row ∷ rows) =
    let rest = list_favorites address rows in
    if text_eq row.address address then insert_newest row rest else rest

-- `INSERT ... ON CONFLICT DO NOTHING RETURNING created_at`: a conflict returns no row.
unfoldable pub insert_favorite : Favorite → List Favorite → Option ℕ × List Favorite
unfolding find_favorite
insert_favorite row rows =
    if is_some (find_favorite row.address row.agent_id rows)
    then (none, rows)
    else (some row.created_at, rows ++ row ∷ [])

-- `res.scalar_one()` raises where there is no row; `now` is the clock of the database.
unfoldable pub add_favorite : ℕ → Text → Text → FavoriteStore → Result Favorite × FavoriteStore
unfolding insert_favorite member
add_favorite now user agent_id s =
    let inserted =
      insert_favorite (record { address = user; agent_id = agent_id; created_at = now })
        s.favorites in
    if member agent_id s.agents
    then (elim inserted.0 [
      | none ↦ (err library_error, s)
      | some created ↦ (
        ok (record { address = user; agent_id = agent_id; created_at = created }),
        record s { favorites = inserted.1 },
      )
    ])
    else (err not_found, s)

-- `DELETE` by the primary key.
unfoldable pub delete_favorite : Text → Text → List Favorite → List Favorite
unfolding is_row
delete_favorite address agent_id [] = []
delete_favorite address agent_id (row ∷ rows) =
    let rest = delete_favorite address agent_id rows in
    if is_row address agent_id row then rest else row ∷ rest

unfoldable pub remove_favorite : Text → Text → FavoriteStore → Result (Unit {0}) × FavoriteStore
unfolding find_favorite delete_favorite
remove_favorite user agent_id s =
    if is_some (find_favorite user agent_id s.favorites)
    then (ok tt, record s { favorites = delete_favorite user agent_id s.favorites })
    else (err not_found, s)
