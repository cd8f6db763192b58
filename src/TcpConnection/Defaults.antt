-- ===== src/TcpConnection/Defaults.antt =====
-- src/net/tcp_connection.cpp: the buffers and the callback of a connection, and what its class does
-- with an event where the class that derives from it has no handler of its own. What the callback
-- does to the program's state is a parameter; its address and its argument are numbers.
use my_rtsp_server.Prelude.{ℕ, Option, none, some, List, ◌>>=◌, ◌==◌, if◌then◌else◌}
use my_rtsp_server.Buffer
use my_rtsp_server.Buffer.{Buffer, ReadvResult}
use my_rtsp_server.TcpConnection.{read_callback, write_callback}

pub record TcpConnection : Type 0 where
  pub socket : ℕ
  pub disconnect_cb : Option (ℕ × ℕ)
  pub input_buffer : Buffer
  pub output_buffer : Buffer

-- The fields as the constructor leaves them, with the blocks of the two buffers.
unfoldable pub new : ℕ → Buffer → Buffer → TcpConnection
new sockfd input output = record {
  socket = sockfd;
  disconnect_cb = none;
  input_buffer = input;
  output_buffer = output;
}

unfoldable pub set_disconnection_callback : ℕ → ℕ → TcpConnection → TcpConnection
set_disconnection_callback cb arg c = record c { disconnect_cb = some (cb, arg) }

unfoldable pub handle_read_bytes : TcpConnection → TcpConnection
handle_read_bytes c = record c { input_buffer = Buffer.retrieve_all c.input_buffer }

unfoldable pub handle_write : TcpConnection → TcpConnection
handle_write c = record c { output_buffer = Buffer.retrieve_all c.output_buffer }

abbrev pub handle_error : TcpConnection → TcpConnection
handle_error c = c

module _ {A : Type 0} (run : ℕ → ℕ → ℕ → A → A) (realloc : List ℕ → ℕ → List ℕ) where
  unfoldable pub handle_disconnection : TcpConnection → A → A
  handle_disconnection c s = elim c.disconnect_cb [ none ↦ s | some h ↦ run h.0 h.1 c.socket s ]

  unfoldable pub handle_read : ReadvResult → TcpConnection → A → Option (TcpConnection × A)
  unfolding handle_disconnection handle_read_bytes
  handle_read input c s = do
    (count, b) ← Buffer.read realloc input c.input_buffer
    let c1 = record c { input_buffer = b }
    elim count [
      | none ↦ some (c1, handle_disconnection c1 s)
      | some n ↦
          if n == 0 then some (c1, handle_disconnection c1 s) else some (handle_read_bytes c1, s)
    ]

  -- The static functions that the event calls.
  unfoldable pub call_back : ℕ → ReadvResult → TcpConnection → A → Option (TcpConnection × A)
  unfolding handle_read handle_write
  call_back cb input c s =
      if cb == read_callback
      then handle_read input c s
      else if cb == write_callback
      then some (handle_write c, s)
      else some (handle_error c, s)
