-- ===== src/Postgres/Getters.antt =====
-- What ffi/postgres.c asks of a connection without a test for NULL, which libpq allows.
use linen.Base.{ℕ, Option, some, none, List, [], ◌∷◌, ℤ}
use linen.Calls.{Code, ◌>>=◌, pure, ask}
use linen.Postgres.{
  ConnCall, ConnReply, on_conn, status, error_message, transaction_status, server_version, socket,
  db, user, host, port, connect_poll, is_nonblocking, res_status, libpq, word_of, text_or_empty,
}
use linen.Postgres.Connection.{Conn}

-- a number that libpq gives of a connection, as a word of so many bits
abbrev pub ask_word : ℕ → Conn → (c : ConnCall) → (ConnReply c → ℤ) → Code libpq ℕ
ask_word w d c int = do n ← ask (on_conn d.conn_open c); pure (word_of w (int n))

-- a text that libpq gives of a connection
abbrev pub ask_text : Conn → (c : ConnCall) → (ConnReply c → Option (List ℕ)) → Code libpq (List ℕ)
ask_text d c text = do t ← ask (on_conn d.conn_open c); pure (text_or_empty (text t))

-- `linen_pg_status`
unfoldable pub conn_status : Conn → Code libpq ℕ
conn_status d = ask_word 8 d status (λ n. n)

-- `linen_pg_error_message`
unfoldable pub last_error : Conn → Code libpq (List ℕ)
last_error d = ask_text d error_message (λ t. t)

-- `linen_pg_transaction_status`
unfoldable pub transaction : Conn → Code libpq ℕ
transaction d = ask_word 8 d transaction_status (λ n. n)

-- `linen_pg_server_version`
unfoldable pub version : Conn → Code libpq ℕ
version d = ask_word 32 d server_version (λ n. n)

-- `linen_pg_socket`
unfoldable pub socket_of : Conn → Code libpq ℕ
socket_of d = ask_word 32 d socket (λ n. n)

-- `linen_pg_db`
unfoldable pub db_of : Conn → Code libpq (List ℕ)
db_of d = ask_text d db (λ t. t)

-- `linen_pg_user`
unfoldable pub user_of : Conn → Code libpq (List ℕ)
user_of d = ask_text d user (λ t. t)

-- `linen_pg_host`
unfoldable pub host_of : Conn → Code libpq (List ℕ)
host_of d = ask_text d host (λ t. t)

-- `linen_pg_port`
unfoldable pub port_of : Conn → Code libpq (List ℕ)
port_of d = ask_text d port (λ t. t)

-- `linen_pg_connect_poll`
unfoldable pub poll_connect : Conn → Code libpq ℕ
poll_connect d = ask_word 8 d connect_poll (λ n. n)

-- `linen_pg_is_nonblocking`
unfoldable pub nonblocking : Conn → Code libpq ℕ
nonblocking d = ask_word 8 d is_nonblocking (λ n. n)

-- `if (!str) str = "UNKNOWN";`
abbrev pub text_or_unknown : Option (List ℕ) → List ℕ
text_or_unknown none = b'U' ∷ b'N' ∷ b'K' ∷ b'N' ∷ b'O' ∷ b'W' ∷ b'N' ∷ []
text_or_unknown (some s) = s

-- `linen_pg_res_status`
unfoldable pub status_name : ℕ → Code libpq (List ℕ)
status_name n = do s ← ask (res_status n); pure (text_or_unknown s)
