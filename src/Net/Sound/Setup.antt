-- ===== src/Net/Sound/Setup.antt =====
-- Set-up of the file system and the socket layer keeps the reference counts of bos/fs.c sound.
use esp_hostdriver.Prelude.{ℕ, ◌^◌, Option, List, ◌==◌, leb}
use esp_hostdriver.Prelude.Codes.{codes}
use esp_hostdriver.Inet.{InetDevCfg}
use esp_hostdriver.Host.{Ptr, ft_dir, FsOps, Filed}
use esp_hostdriver.Host.Partial.{
  if_done, Keeps, Keeps-pure, Keeps-if, Keeps-bind, Keeps-option, Keeps-ret,
}
use esp_hostdriver.Host.Ret.{fail}
use esp_hostdriver.Host.Stable.{Keeps-malloc}
use esp_hostdriver.Bos.{register, next_fs_id}
use esp_hostdriver.Bos.Sound.{Sound, Sound-IsStable, Sound-setup}
use esp_hostdriver.Bos.Sound.Nodes.{Keeps-node_create}
use esp_hostdriver.Net.Device.{netdev_init, netdev_register, netdev_release}
use esp_hostdriver.Net.Frame.{Keeps-domain_cfg}

module _ {P : List Filed → Type 0} where
  Keeps-register : (ops : Option FsOps) → Keeps (Sound P) (register ops)
  unfolding register
  Keeps-register ops = record {
    keeps = λ w s.
        (Keeps-if (leb (2 ^ 31) (next_fs_id w.fs_lst)) (Keeps-pure fail) (
            Keeps-option ops (Keeps-pure fail) (λ o. Keeps-if _ (Keeps-pure fail) (
              Keeps-bind (Keeps-malloc Sound-IsStable) (λ fs.
                Keeps-if (fs == 0) (Keeps-pure fail) (record {
                  keeps = λ v i.
                      if_done (
                        Sound-setup _ v.netfs_id v.net_root v.devs v.dev_lst v.esps v.sock_count i);
                })))))).keeps
          w s;
  }

  pub Keeps-netdev_init : Keeps (Sound P) netdev_init
  unfolding netdev_init
  Keeps-netdev_init = Keeps-bind (Keeps-register _) (λ r. Keeps-ret r (Keeps-pure fail) (λ id.
      record {
        keeps = λ w s.
            (Keeps-bind (Keeps-node_create 0 (codes "socket") 6 ft_dir 0 id) (λ root. record {
              keeps = λ v i.
                  if_done
                    (Sound-setup v.fs_lst v.netfs_id root v.devs v.dev_lst v.esps v.sock_count i);
            })).keeps
              _ (Sound-setup w.fs_lst id w.net_root w.devs w.dev_lst w.esps w.sock_count s);
      }))

  pub Keeps-netdev_register :
      (zeroed : InetDevCfg) (ops domain : ℕ) (data' : Ptr)
      → Keeps (Sound P) (netdev_register zeroed ops domain data')
  unfolding netdev_register
  Keeps-netdev_register zeroed ops domain data' = Keeps-bind (Keeps-domain_cfg domain) (λ _.
      Keeps-bind (Keeps-malloc Sound-IsStable) (λ dev. Keeps-if (dev == 0) (Keeps-pure 0) (record {
        keeps =
            λ w s. if_done (Sound-setup w.fs_lst w.netfs_id w.net_root _ _ w.esps w.sock_count s);
      })))

  pub Keeps-netdev_release : (dev : Ptr) → Keeps (Sound P) (netdev_release dev)
  unfolding netdev_release
  Keeps-netdev_release dev = record {
    keeps = λ w s. if_done (Sound-setup w.fs_lst w.netfs_id w.net_root _ _ w.esps w.sock_count s);
  }
