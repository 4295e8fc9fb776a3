-- ===== src/Examples/Bookmarking.antt =====
-- The favorites of one wallet.
use bnb_agent_marketplace.Base.{codes, ◌≡◌, refl, [], ◌∷◌, text_eq, ap}
use bnb_agent_marketplace.Errors.{ok, err, library_error}
use bnb_agent_marketplace.Favorites.{
  Favorite, FavoriteStore, add_favorite, insert_favorite, is_row, find_favorite, list_favorites,
  remove_favorite, insert_newest,
}
use bnb_agent_marketplace.Favorites.Kept.{add_favorite-again, remove_favorite-add}
use bnb_agent_marketplace.Score.Track.{member}
use bnb_agent_marketplace.Examples.World.{alice}

abbrev old_favorite : Favorite
old_favorite = record { address = alice; agent_id = codes "56:1"; created_at = 5 }

abbrev fresh_favorite : Favorite
fresh_favorite = record { address = alice; agent_id = codes "56:2"; created_at = 9 }

abbrev one_favorite : FavoriteStore
one_favorite = record { agents = codes "56:1" ∷ codes "56:2" ∷ []; favorites = old_favorite ∷ [] }

abbrev two_favorites : FavoriteStore
two_favorites = record one_favorite { favorites = old_favorite ∷ fresh_favorite ∷ [] }

added : add_favorite 9 alice (codes "56:2") one_favorite ≡ (ok fresh_favorite, two_favorites)
unfolding add_favorite insert_favorite is_row find_favorite member text_eq
added = refl

-- The newest one comes first.
listed : list_favorites alice (two_favorites.favorites) ≡ fresh_favorite ∷ old_favorite ∷ []
unfolding list_favorites insert_newest text_eq
listed = refl

add_favorite-again_example :
    add_favorite 12 alice (codes "56:2") (add_favorite 9 alice (codes "56:2") one_favorite).1
    ≡ (err library_error, (add_favorite 9 alice (codes "56:2") one_favorite).1)
add_favorite-again_example =
    add_favorite-again 9 12 alice (codes "56:2") one_favorite {row = fresh_favorite}
      (ap (λ p. p.0) added)

remove_favorite-add_example :
    remove_favorite alice (codes "56:2") (add_favorite 9 alice (codes "56:2") one_favorite).1
    ≡ (ok tt, one_favorite)
remove_favorite-add_example =
    remove_favorite-add 9 alice (codes "56:2") one_favorite {row = fresh_favorite}
      (ap (λ p. p.0) added)
