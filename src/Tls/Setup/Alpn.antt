-- ===== src/Tls/Setup/Alpn.antt =====
-- ALPN on the contexts of ffi/tls.c, and their finalizer.
use linen.Base.{ℕ, ◌%◌, ◌^◌, Bool, true, false, Option, some, none, List, [], ◌∷◌, length}
use linen.Calls.{Code, branch, ◌>>=◌, ◌>>◌, pure, ask, make_or, free, unless}
use linen.Tls.Setup.{
  ssl_ctx, wrapper, alpn, new_alpn, malloc_copy, set_alpn_select_cb, set_alpn_protos, openssl, fail,
  is_zero,
}
use linen.Tls.Setup.Contexts.{Context}

-- `SSL_TLSEXT_ERR_OK` with the choice, or `SSL_TLSEXT_ERR_NOACK`
pub data Selected : Type 0 where
  selected : List ℕ → Selected
  no_ack : Selected

-- the answer of `SSL_select_next_proto`: whether it negotiated, and the name
abbrev pub choice : Bool × List ℕ → Selected
choice (true, name) = selected name
choice (false, name) = no_ack

-- from `!c->alpn` on
abbrev pub select_from : (List ℕ → List ℕ → Bool × List ℕ) → Option (List ℕ) → List ℕ → Selected
select_from next_proto none offered = no_ack
select_from next_proto (some ours) offered = choice (next_proto ours offered)

-- `alpn_select_cb`, with OpenSSL's choice a parameter
pub alpn_select : (List ℕ → List ℕ → Bool × List ℕ) → Option Context → List ℕ → Selected
alpn_select next_proto none offered = no_ack
alpn_select next_proto (some c) offered = select_from next_proto c.alpn_list offered

-- `free(wrapper->alpn)`
abbrev pub free_alpn : Option (List ℕ) → Code openssl (Unit {0})
free_alpn none = pure tt
free_alpn (some wire) = free alpn

abbrev pub is_empty : List ℕ → Bool
is_empty [] = true
is_empty (b ∷ bs) = false

-- `linen_tls_ctx_set_alpn_protocols`
unfoldable pub set_alpn_protocols : Context → List ℕ → Code openssl Context
set_alpn_protocols ctx wire =
    branch (is_empty wire)
      (do
        free_alpn ctx.alpn_list
        ask (set_alpn_select_cb false)
        pure (record { alpn_list = none; alpn_len = 0 }))
      (do
        make_or new_alpn (malloc_copy wire) (fail "malloc failed")
        free_alpn ctx.alpn_list
        ask (set_alpn_select_cb true)
        pure (record { alpn_list = some wire; alpn_len = length wire % 2 ^ 32 }))

-- "\x02h2\x08http/1.1"
abbrev pub h2_http11 : List ℕ
h2_http11 = 2 ∷ b'h' ∷ b'2' ∷ 8 ∷ b'h' ∷ b't' ∷ b't' ∷ b'p' ∷ b'/' ∷ b'1' ∷ b'.' ∷ b'1' ∷ []

-- `linen_tls_ctx_set_alpn`
unfoldable pub set_alpn : Context → Code openssl Context
unfolding set_alpn_protocols
set_alpn ctx = set_alpn_protocols ctx h2_http11

-- `linen_tls_ctx_set_alpn_offer`; the context stays as it is
unfoldable pub set_alpn_offer : List ℕ → Code openssl (Unit {0})
set_alpn_offer wire = do
  rc ← ask (set_alpn_protos wire)
  unless (is_zero rc) (fail "SSL_CTX_set_alpn_protos failed")

-- `linen_ssl_ctx_finalizer`; `SSL_CTX` is there whenever the wrapper is
unfoldable pub ctx_finalizer : Context → Code openssl (Unit {0})
ctx_finalizer ctx = do free ssl_ctx; free_alpn ctx.alpn_list; free wrapper
