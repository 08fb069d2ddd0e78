-- ===== src/Http/Status.antt =====
-- The statuses of net/http that the package writes.
use deelp_pkg.Prelude.{ℕ}

abbrev pub ok : ℕ
ok = 200

abbrev pub created : ℕ
created = 201

abbrev pub bad_request : ℕ
bad_request = 400

abbrev pub unauthorized : ℕ
unauthorized = 401

abbrev pub payment_required : ℕ
payment_required = 402

abbrev pub forbidden : ℕ
forbidden = 403

abbrev pub not_found : ℕ
not_found = 404

abbrev pub conflict : ℕ
conflict = 409

abbrev pub too_many_requests : ℕ
too_many_requests = 429

abbrev pub internal_server_error : ℕ
internal_server_error = 500
