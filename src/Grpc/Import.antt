-- ===== src/Grpc/Import.antt =====
-- The two ways to import a session.
use session_proxy.Base.{ℕ, ◌≡◌, refl, inl, inr, ◌||◌, some, str_eq, ◌==◌, if◌then◌else◌, Bool-cases}
use session_proxy.Domain.{OriginalSession}
use session_proxy.Store.App.{World, Result, ok, err, pure, ◌>>=◌}
use session_proxy.Crypto.{Aead}
use session_proxy.SessionImport.{import_session}
use session_proxy.Api.Reply.{answer, internal_error, Reply, session, write_json}
use session_proxy.Api.Sessions.{ImportSessionRequest, handle_import_session, is_empty, site_name_of}
use session_proxy.Grpc.{
  ImportRequest, ImportResponse, Answer, response, failed, invalid_argument, internal,
  import_service, import_answer,
}

-- The answer that goes with a reply of the HTTP handler.
abbrev pub answer_of : Result Reply → Result (Answer ImportResponse)
answer_of (err e) = err e
answer_of (ok r) = ok (elim r.body [
  | session s ↦ response (record { original_session_id = s.id; target_site_id = s.target_site_id })
  | b ↦ if r.status == 400 then failed invalid_argument else failed internal
])

abbrev pub http_request : ImportRequest → ImportSessionRequest
http_request req = record {
  base_domain = req.base_domain;
  site_name = req.site_name;
  base_url = req.base_url;
  cookies = req.cookies;
  tokens = req.tokens;
}

-- The gRPC service and the HTTP handler do the same with the same request: they leave the same
-- tables, whatever fails, and the answer of the one goes with the reply of the other.
pub import_service-handle_import_session :
    {R : Type 0} (user : ℕ) (aead : Aead) (req : ImportRequest) (w : World R)
    → import_service user aead req w ≡ (
        let (r, v) = handle_import_session user aead (some (http_request req)) w in
        (answer_of r, v))
unfolding import_service handle_import_session ◌>>=◌
import_service-handle_import_session {R} user aead req w =
    elim (Bool-cases (str_eq req.base_domain "" || is_empty req.base_url)) [
      | inl e ↦ rw e refl
      | inr e ↦ rw e (
          go (
            import_session aead user req.base_domain (site_name_of (http_request req)) req.base_url
              req.cookies req.tokens w))
    ]
  where
    go :
        (x : Result OriginalSession × World R)
        → pure (import_answer x.0) x.1 ≡ (
            let (r, v) =
              pure (answer (λ e. internal_error) (λ s. write_json 201 (session s)) x.0) x.1 in
            (answer_of r, v))
    go (ok s, v) = refl
    go (err e, v) = refl
