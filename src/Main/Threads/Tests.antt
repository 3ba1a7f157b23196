-- ===== src/Main/Threads/Tests.antt =====
-- A run of main/main.c as a server up to a round in which no connection waits.
use esp_hostdriver.Prelude.{◌≡◌, refl, true, false, none, some, [], arith}
use esp_hostdriver.Prelude.Codes.{codes}
use esp_hostdriver.Samples.{no_addr, device_cfg}
use esp_hostdriver.Host.{
  malloc, load_node, store_node, free_node, load_sock, store_sock, load_dev, load_esp, store_esp,
  World, Run, done, stream, inval, SerialLine,
}
use esp_hostdriver.Bos.{
  next_fs_id, register, fd_alloc, rm_fd, fd_free, find_fd, fd_acquire, fd_release, has_fs,
  add_child, node_create_plain, destroy_childs, destroy_rest, node_destroy, node_create,
}
use esp_hostdriver.Inet.{add_token, inet_addr, bits8, dotted, inet_ntoa, inet_match_addr, Mode}
use esp_hostdriver.Libc.Decimal.{digits, print_d, atoi_sign, atoi}
use esp_hostdriver.Libc.Strings.{tokens}
use esp_hostdriver.Net.Device.{
  domain_cfg, netdev_init, netdev_register, netdev_release, netdev_sock_alloc, netdev_sock_free,
  find_by_data, netdev_sock_disconnect, find_dev, assign_netdev,
}
use esp_hostdriver.Net.Calls.{
  sock_name, sock_of, open_sock, bos_socket, bos_net_configure, bos_connect, bos_listen, bos_close,
  netfs_close, bos_bind, bos_accept, netfs_open,
}
use esp_hostdriver.Net.Transfer.{
  send_op, bos_sendto, bos_send, netfs_write, bos_recvfrom, bos_recv, netfs_read,
}
use esp_hostdriver.Net.Itoa.{itoa}
use esp_hostdriver.Serial.Line.{
  back_to_comma, until_comma, parse_ipd, line_kind, until_quote, parse_status,
}
use esp_hostdriver.Serial.Reader.{
  write_line, next_byte, read_byte, read_bytes, reply_result, serial_recv, accept_line, accept_loop,
  serial_accept, serial_closed, parse_line, read_round, read_until_signal, serial_idle,
}
use esp_hostdriver.Serial.Command.{
  serial_cmd_start, serial_cmd_send, serial_cmd_send_char, serial_cmd_wait, serial_cmd,
}
use esp_hostdriver.Esp.Links.{find_link, get_link_id}
use esp_hostdriver.Esp.Notice.{link_of, deliver, esp_recv, esp_accept, esp_closed}
use esp_hostdriver.Esp.Format.{arg_text, convert, send_format, send_cmd}
use esp_hostdriver.Esp.Driver.{
  gw_as_string, esp_of, esp_configure, esp_connect, esp_listen, esp_close, esp_send,
}
use esp_hostdriver.Esp.Init.{free_esp, esp01_init}
use esp_hostdriver.Main.{
  main_cfg, ack, server_start, server_round, client_start, client_line, echo, recv_round,
  main_setup,
}
use esp_hostdriver.Sys.Ringbuf.{write, left, contains, empty, full}
use esp_hostdriver.Host.Ret.{ret}
use esp_hostdriver.Bos.Sound.{Sound}
use esp_hostdriver.Bos.Sound.Fds.{Any}
use esp_hostdriver.Opt.{Opts}
use esp_hostdriver.Main.Threads.{RecvThreadArg, server_begins, server_waits}
use esp_hostdriver.Main.Threads.Sound.{MainReaches-Sound}
use esp_hostdriver.Program.{Setting, drivers_of, boot}

abbrev setting : Setting
setting = record { idx = 0; junk = no_addr; zeroed = device_cfg; before = []; dev = 0 }

abbrev opts : Opts
opts = record {
  dev_mode = Mode.ap;
  ty = stream;
  ssid = codes "S";
  password = codes "P";
  ip = 0;
  port = 80;
  esp_debug = false;
}

abbrev answers : SerialLine
answers = record {
  response = none;
  cmd_result = inval;
  line = [];
  input = codes "ready\nOK\nOK\nOK\nOK\nOK\nOK\nOK\n";
  hangup = false;
  output = [];
}

end_of : {A : Type 0} → Run A → World
end_of (done _ v) = v
end_of _ = boot 20 answers

set_up : World
set_up =
    end_of (main_setup (drivers_of setting) opts no_addr true device_cfg 0 [] (boot 20 answers))

serving : World
serving = end_of (server_start (drivers_of setting) opts 1 set_up)

abbrev no_arg : RecvThreadArg
no_arg = record { echo = false; sock = 0 }

waiting : World
waiting = end_of (server_round (drivers_of setting) opts 1 serving)

runs :
    (main_setup (drivers_of setting) opts no_addr true device_cfg 0 [] (boot 20 answers)
      ≡ done (some (ret 1)) set_up)
    × (server_start (drivers_of setting) opts 1 set_up ≡ done (ret 0) serving)
    × (server_round (drivers_of setting) opts 1 serving ≡ done none waiting)
unfolding set_up serving waiting end_of malloc load_node store_node free_node load_sock store_sock
    load_dev load_esp store_esp next_fs_id register fd_alloc rm_fd fd_free find_fd fd_acquire
    fd_release has_fs add_child node_create_plain destroy_childs destroy_rest node_destroy
    node_create add_token inet_addr bits8 dotted inet_ntoa inet_match_addr digits print_d atoi_sign
    atoi tokens domain_cfg netdev_init netdev_register netdev_release netdev_sock_alloc
    netdev_sock_free find_by_data netdev_sock_disconnect find_dev assign_netdev sock_name sock_of
    open_sock bos_socket bos_net_configure bos_connect bos_listen bos_close netfs_close bos_bind
    bos_accept netfs_open send_op bos_sendto bos_send netfs_write bos_recvfrom bos_recv netfs_read
    itoa back_to_comma until_comma parse_ipd line_kind until_quote parse_status write_line next_byte
    read_byte read_bytes reply_result serial_recv accept_line accept_loop serial_accept
    serial_closed parse_line read_round read_until_signal serial_idle serial_cmd_start
    serial_cmd_send serial_cmd_send_char serial_cmd_wait serial_cmd find_link get_link_id link_of
    deliver esp_recv esp_accept esp_closed arg_text convert send_format send_cmd gw_as_string esp_of
    esp_configure esp_connect esp_listen esp_close esp_send free_esp esp01_init main_cfg ack
    server_start server_round client_start client_line echo recv_round main_setup write left
    contains empty full
runs = (refl, refl, refl)

waiting-Sound : Sound Any waiting
waiting-Sound =
    MainReaches-Sound setting opts true 0 20 answers _ (omega arith)
      (server_waits (server_begins no_arg runs.0 refl runs.1) refl runs.2)
