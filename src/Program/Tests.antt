-- ===== src/Program/Tests.antt =====
-- Programs that run from boot.
use esp_hostdriver.Prelude.{refl, false, none, [], arith}
use esp_hostdriver.Samples.{no_addr, device_cfg}
use esp_hostdriver.Host.{
  stream, inval, SerialLine, World, Run, done, Filed, malloc, load_node, store_node, free_node,
  load_sock, store_sock,
}
use esp_hostdriver.Bos.{
  register, next_fs_id, has_fs, add_child, node_create_plain, node_create, node_destroy,
  destroy_rest, destroy_childs, fd_alloc, fd_free, rm_fd, find_fd, fd_acquire,
}
use esp_hostdriver.Bos.Sound.{Sound}
use esp_hostdriver.Bos.Sound.Fds.{Any}
use esp_hostdriver.Net.Itoa.{itoa}
use esp_hostdriver.Net.Device.{domain_cfg, netdev_init, netdev_sock_alloc}
use esp_hostdriver.Net.Calls.{sock_name, sock_of, open_sock, bos_socket, netfs_close}
use esp_hostdriver.Program.{
  Setting, Call, close_by_id, perform, boot, Reaches, at_start, after_call,
}
use esp_hostdriver.Program.Counts.{Reaches-Sound}

abbrev setting : Setting
setting = record { idx = 0; junk = no_addr; zeroed = device_cfg; before = []; dev = 0 }

abbrev line : SerialLine
line = record {
  response = none;
  cmd_result = inval;
  line = [];
  input = [];
  hangup = false;
  output = [];
}

state_of : World → Run (Unit {0}) → World
state_of w (done _ v) = v
state_of w _ = w

with_call : Call → World → World
with_call c w = state_of w (perform setting c w)

started : World
started = with_call Call.init (boot 20 line)

with_socket : World
with_socket = with_call (Call.socket 0 stream) started

socket_Reaches : Reaches setting (boot 20 line) with_socket
unfolding with_socket started with_call state_of perform netdev_init register next_fs_id node_create
    node_create_plain has_fs add_child malloc load_node store_node load_sock store_sock bos_socket
    domain_cfg netdev_sock_alloc open_sock sock_name fd_alloc itoa
socket_Reaches = after_call (Call.socket 0 stream) (after_call Call.init at_start refl) refl

abbrev the_fd : Filed
the_fd = record { id = 1; fp = 0; node = 6; mode = 12; mode_mask = 0 }

freed_Reaches : Reaches setting (boot 20 line) (with_call (Call.close_file 1) with_socket)
unfolding with_socket started with_call state_of perform netdev_init register next_fs_id node_create
    node_create_plain has_fs add_child malloc load_node store_node load_sock store_sock bos_socket
    domain_cfg netdev_sock_alloc open_sock sock_name fd_alloc itoa netfs_close close_by_id
    fd_acquire find_fd sock_of fd_free rm_fd node_destroy destroy_rest destroy_childs free_node
freed_Reaches = after_call (Call.close_file 1) socket_Reaches refl

Reaches-Sound_example : Sound Any (with_call (Call.close_file 1) with_socket)
Reaches-Sound_example = Reaches-Sound setting 20 line _ (omega arith) freed_Reaches
