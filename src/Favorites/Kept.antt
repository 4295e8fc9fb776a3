-- ===== src/Favorites/Kept.antt =====
-- The favorites: adding one, adding it again, and removing it.
use bnb_agent_marketplace.Score.Track.{member}
use bnb_agent_marketplace.Errors.{library_error, ok, err}
use bnb_agent_marketplace.Base.{
  ◌≡◌, refl, Text, text_eq_refl, true, false, is_some, List, [], ◌∷◌, ◌++◌, Bool-cases, ℕ, inl, inr,
  arith,
}
use bnb_agent_marketplace.Favorites.{
  Favorite, is_row, find_favorite, delete_favorite, insert_favorite, add_favorite, remove_favorite,
  FavoriteStore,
}

is_row_self : (row : Favorite) → is_row row.address row.agent_id row ≡ true
unfolding is_row
is_row_self row = ground (arith, text_eq_refl row.address, text_eq_refl row.agent_id)

find_favorite-append :
    (row : Favorite) (rows : List Favorite)
    → is_some (find_favorite row.address row.agent_id (rows ++ row ∷ [])) ≡ true
unfolding find_favorite
find_favorite-append row [] = rw (is_row_self row) refl
find_favorite-append row (other ∷ rows) = ground (arith, find_favorite-append row rows)

delete_favorite-absent :
    (address agent_id : Text) (rows : List Favorite)
    → is_some (find_favorite address agent_id rows) ≡ false
    → delete_favorite address agent_id rows ≡ rows
unfolding find_favorite delete_favorite
delete_favorite-absent address agent_id [] h = refl
delete_favorite-absent address agent_id (row ∷ rows) h =
    ground (arith, delete_favorite-absent address agent_id rows)

delete_favorite-append :
    (row : Favorite) (rows : List Favorite)
    → is_some (find_favorite row.address row.agent_id rows) ≡ false
    → delete_favorite row.address row.agent_id (rows ++ row ∷ []) ≡ rows
unfolding find_favorite delete_favorite
delete_favorite-append row [] h = rw (is_row_self row) refl
delete_favorite-append row (other ∷ rows) h = ground (arith, delete_favorite-append row rows)

abbrev new_favorite : ℕ → Text → Text → Favorite
new_favorite now user agent_id = record { address = user; agent_id = agent_id; created_at = now }

abbrev with_favorite : Favorite → FavoriteStore → FavoriteStore
with_favorite row s = record s { favorites = s.favorites ++ row ∷ [] }

-- What holds where an addition succeeds.
add_favorite-ok :
    (now : ℕ) (user agent_id : Text) (s : FavoriteStore) {row : Favorite}
    → (add_favorite now user agent_id s).0 ≡ ok row
    → (member agent_id s.agents ≡ true)
      × (is_some (find_favorite user agent_id s.favorites) ≡ false)
      × ((add_favorite now user agent_id s).1 ≡ with_favorite (new_favorite now user agent_id) s)
unfolding add_favorite insert_favorite
add_favorite-ok now user agent_id s {row} h = elim (Bool-cases (member agent_id s.agents)) [
  | inr uncached ↦ ground arith
  | inl cached ↦ elim (Bool-cases (is_some (find_favorite user agent_id s.favorites))) [
    | inl old ↦ ground arith
    | inr new ↦ (cached, new, rw (new, insert_favorite) (ground arith))
  ]
]

-- Adding a favorite that was just added raises and leaves the tables as they are.
pub add_favorite-again :
    (now later : ℕ) (user agent_id : Text) (s : FavoriteStore) {row : Favorite}
    → (add_favorite now user agent_id s).0 ≡ ok row
    → add_favorite later user agent_id (add_favorite now user agent_id s).1
      ≡ (err library_error, (add_favorite now user agent_id s).1)
add_favorite-again now later user agent_id s {row} h =
    let (cached, new, after) = add_favorite-ok now user agent_id s h in
    rw after (
      unfold add_favorite insert_favorite in
      rw (cached, find_favorite-append (new_favorite now user agent_id) s.favorites) refl)

-- Removing a favorite that was just added restores the tables.
pub remove_favorite-add :
    (now : ℕ) (user agent_id : Text) (s : FavoriteStore) {row : Favorite}
    → (add_favorite now user agent_id s).0 ≡ ok row
    → remove_favorite user agent_id (add_favorite now user agent_id s).1 ≡ (ok tt, s)
remove_favorite-add now user agent_id s {row} h =
    let (cached, new, after) = add_favorite-ok now user agent_id s h in
    let fresh = new_favorite now user agent_id in
    rw after (
      unfold remove_favorite in
      rw (find_favorite-append fresh s.favorites, delete_favorite-append fresh s.favorites new)
        refl)
