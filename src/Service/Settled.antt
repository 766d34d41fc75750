-- ===== src/Service/Settled.antt =====
-- How the transaction of a command of scripts/company_postgres_service.py ends, by the receipt of its key.
use moonproj.Base.{
  String, ◌≡◌, refl, subst, ◌⊎◌, inl, inr, true, false, Option, none, some, some-eq, ◌∷◌, Json,
}
use moonproj.Service.Quoting.{quotable}
use moonproj.Service.Database.{
  Db, Receipt, Returned, lookup, settle, commit, transaction, transaction-quotable,
}

module _ (key : String) (request : Json) (block : Db → Option (Db × Json)) (db : Db) where
  -- The key had a receipt, which is returned, and nothing has changed.
  abbrev pub Replays : Db → Returned → Type 0
  Replays db' r = (lookup key db.receipts ≡ some r.receipt) × (r.created ≡ false) × (db' ≡ db)

  -- The key had none; the block has run, and its result is in the new receipt.
  abbrev pub Runs : Db → Returned → Type 0
  Runs db' r =
      (lookup key db.receipts ≡ none)
      × (r.created ≡ true)
      × (r.receipt.request ≡ request)
      × (after : Db × Json) × (block db ≡ some after)
      × (r.receipt.result ≡ after.1)
      × (db' ≡ record after.0 { receipts = (key, r.receipt) ∷ db.receipts })

  pub transaction-ends :
      {db' : Db} {r : Returned}
      → transaction key request block db ≡ some (db', r)
      → Replays db' r ⊎ Runs db' r
  transaction-ends {db'} {r} h =
      go (lookup key db.receipts) refl (transaction-quotable key request block db h).1
    where
      ran :
          (b : Option (Db × Json))
          → block db ≡ b
          → lookup key db.receipts ≡ none
          → commit key request db b ≡ some (db', r)
          → Runs db' r
      ran none e f k = absurd (cc k)
      ran (some after) e f k =
          subst (λ (x : Db × Returned). Runs x.0 x.1) (some-eq k)
            (f, refl, refl, after, e, refl, refl)

      go :
          (o : Option Receipt)
          → lookup key db.receipts ≡ o
          → settle key request block db o ≡ some (db', r)
          → Replays db' r ⊎ Runs db' r
      go (some x) e k =
          inl (subst (λ (y : Db × Returned). Replays y.0 y.1) (some-eq k) (e, refl, refl))
      go none e k = inr (ran (block db) refl e k)

  -- On a new key, a whole script commits what the block does.
  pub transaction-new :
      quotable request ≡ true
      → lookup key db.receipts ≡ none
      → transaction key request block db ≡ commit key request db (block db)
  unfolding transaction
  transaction-new whole e = rw (whole, e)
