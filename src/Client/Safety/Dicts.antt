-- ===== src/Client/Safety/Dicts.antt =====
-- The laws of a dict.
use centrifuge_python.Base.{
  refl, ℕ, none, some, List, [], ◌∷◌, ◌==◌, if◌then◌else◌, ◌≡◌, arith, ap, ◌∙◌,
}
use centrifuge_python.Client.World.{Dict, get, put, delete}
use centrifuge_python.Client.Commands.{keys}
use centrifuge_python.Client.ServerSubs.{delete_all}

module _ {V : Type 0} where
  pub get-put :
      (k j : ℕ) (v : V) (d : Dict V) → get k (put j v d) ≡ (if k == j then some v else get k d)
  unfolding get put
  get-put k j v [] = ground arith
  get-put k j v ((i, w) ∷ d) = ground (arith, get-put k j v d)

  pub get-delete : (k j : ℕ) (d : Dict V) → get k (delete j d) ≡ (if k == j then none else get k d)
  unfolding get delete
  get-delete k j [] = ground arith
  get-delete k j ((i, w) ∷ d) = ground (arith, get-delete k j d)

  pub delete-missing : (k : ℕ) (d : Dict V) → get k d ≡ none → delete k d ≡ d
  unfolding get delete
  delete-missing k [] e = refl
  delete-missing k ((i, w) ∷ d) e = ground (arith, delete-missing k d)

  pub delete_comm : (j k : ℕ) (d : Dict V) → delete j (delete k d) ≡ delete k (delete j d)
  unfolding delete
  delete_comm j k [] = refl
  delete_comm j k ((i, w) ∷ d) = ground (arith, delete_comm j k d)

  delete_all-delete :
      (ks : List ℕ) (k : ℕ) (d : Dict V) → delete_all ks (delete k d) ≡ delete k (delete_all ks d)
  unfolding delete_all
  delete_all-delete [] k d = refl
  delete_all-delete (j ∷ ks) k d =
      ap (delete_all ks) (delete_comm j k d) ∙ delete_all-delete ks k (delete j d)

  pub delete_all-keys : (d : Dict V) → delete_all (keys d) d ≡ []
  unfolding delete_all delete
  delete_all-keys [] = refl
  delete_all-keys ((k, v) ∷ d) = ground (arith, delete_all-delete (keys d) k d, delete_all-keys d)
