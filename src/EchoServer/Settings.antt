-- ===== src/EchoServer/Settings.antt =====
-- What the server takes from its configuration file.
use my_net_lib.Common.{List, [], ap, arith, length, ℕ, ◌%◌, ◌++◌, ◌<◌, ◌^◌, ◌∙◌, ◌∷◌, ◌≡◌, ◌≢◌}
use my_net_lib.Decimal.{decimal, atoi}
use my_net_lib.Config.{Config, value_of, parse_line, parse_lines}
use my_net_lib.Config.Lines.{IsEntry, parse_line_entry, parse_line_number}
use my_net_lib.InetAddr.{to_port}
use my_net_lib.InetAddr.Ports.{to_port_lem}
use my_net_lib.EchoServer.{port_key, thread_num_key, listen_addr, thread_num}

other_key : port_key ≢ thread_num_key
other_key e = absurd (omega (arith, ap length e))

-- The two lines behind those that `mp` was read from.
abbrev pub with_settings : (sep sep' : List ℕ) → (port threads : ℕ) → Config → Config
with_settings sep sep' port threads mp =
    parse_lines
      ((port_key ++ (sep ++ decimal port)) ∷ (thread_num_key ++ (sep' ++ decimal threads)) ∷ []) mp

-- A file that ends with a line for the port and a line for the number of threads makes the server
-- listen on that port and start that many threads, whatever the lines before say.
pub settings_lem :
    (sep sep' : List ℕ) (port threads : ℕ) (mp : Config)
    → port < 2 ^ 16
    → threads < 2 ^ 31
    → IsEntry port_key sep (decimal port)
    → IsEntry thread_num_key sep' (decimal threads)
    → (to_port (listen_addr (with_settings sep sep' port threads mp)) ≡ port)
      × (thread_num (with_settings sep sep' port threads mp) ≡ threads)
unfolding listen_addr thread_num
settings_lem sep sep' port threads mp hp ht e e' = (
  (to_port_lem (λ ip. 0) [] (atoi (value_of port_key last))).1
      ∙ ap (λ n. n % 2 ^ 16)
          (ap atoi
              (parse_line_entry thread_num_key sep' (decimal threads) port_key first e' other_key).1
            ∙ parse_line_number port_key sep port mp (omega arith) e)
      ∙ omega arith,
  parse_line_number thread_num_key sep' threads first (omega arith) e',
)
  where
    first : Config
    first = parse_line (port_key ++ (sep ++ decimal port)) mp

    last : Config
    last = parse_line (thread_num_key ++ (sep' ++ decimal threads)) first
