-- ===== src/Translations/Zh/Settings.antt =====
-- The Chinese texts of the main page and the settings, lines 902 to 996 of frontend/src/i18n/translations.ts.
use lokinode.Translations.Table.{Table}
use mathlib.Core.List.{[], ◌∷◌}

unfoldable pub texts : Table
texts =
    ("main.title", "配置节点")
    ∷ ("main.data_dir", "节点环境")
    ∷ ("main.starting", "正在启动节点…")
    ∷ ("main.start", "启动节点")
    ∷ ("main.select_dir_title", "查找节点环境")
    ∷ ("main.loading_default", "加载默认节点环境...")
    ∷ ("main.existing.badge", "发现已有节点")
    ∷ ("main.existing.desc", "在此位置检测到 Flokicoin 节点环境。您可以直接启动它。")
    ∷ ("main.existing.start", "点击启动")
    ∷ ("main.configure", "配置节点设置")
    ∷ ("main.errors.alias", "需要节点别名")
    ∷ ("main.errors.alias_invalid", "无效的节点别名")
    ∷ ("main.errors.start_failed", "启动失败")
    ∷ ("main.errors.config_error", "配置错误")
    ∷ ("main.errors.node_error", "节点错误")
    ∷ ("main.errors.not_a_node", "在此位置未找到现有节点环境")
    ∷ ("main.errors.dir_error", "环境选择错误")
    ∷ ("main.default_alias", "MyLokinode")
    ∷ ("config.alias_default_hint", "Will use default name")
    ∷ ("main.create_new", "创建新节点")
    ∷ ("main.create_new_sub", "初始化全新环境。")
    ∷ ("main.open_existing", "打开现有节点")
    ∷ ("main.open_existing_sub", "从现有的节点环境恢复。")
    ∷ ("main.browse_folder", "选择文件夹")
    ∷ ("main.status.offline", "节点离线")
    ∷ ("main.status.starting", "启动中")
    ∷ ("main.power_hint", "点击启动")
    ∷ ("main.power_hint_starting", "初始化…")
    ∷ ("config.alias", "节点别名")
    ∷ ("config.alias_ph", "例如 MyLokinode")
    ∷ ("config.network", "网络设置")
    ∷ ("config.rest_cors", "REST CORS")
    ∷ ("config.rpc_listen", "RPC 监听")
    ∷ ("config.rest_listen", "REST 监听")
    ∷ ("network.restart_btn", "重启节点")
    ∷ ("network.restarting", "重启中...")
    ∷ ("network.restart.confirm", "确认重启？")
    ∷ ("network.restart.confirm_action", "再次点击以确认重启")
    ∷ ("network.restart_sub", "Your node will be back online in a few seconds.")
    ∷ ("network.errors.invalid_config", "Configuration Issue")
    ∷ ("settings.title", "设置")
    ∷ ("security.title", "安全")
    ∷ ("security.section", "修改钱包密码")
    ∷ ("security.current_pwd", "当前密码")
    ∷ ("security.new_pwd", "新密码")
    ∷ ("security.new_pwd_ph", "至少8个字符")
    ∷ ("security.confirm_pwd", "确认新密码")
    ∷ ("security.update", "更新密码")
    ∷ ("security.updating", "更新中…")
    ∷ ("security.update_sub", "Re-keying your wallet. This will take a moment.")
    ∷ ("security.updated", "密码更新成功")
    ∷ ("security.updated_ok", "密码更新成功")
    ∷ ("security.failed", "失败")
    ∷ ("security.stop_prompt", "更新密码需要停止节点。现在停止并应用更新？")
    ∷ ("security.update_failed", "更新失败")
    ∷ ("security.error.timeout", "等待节点进入锁定状态超时")
    ∷ ("validation.required", "必填")
    ∷ ("validation.min8", "至少8个字符")
    ∷ ("validation.no_match", "不匹配")
    ∷ ("validation.dir_required", "需要环境位置")
    ∷ ("validation.dir_not_empty", "环境必须为空或新建")
    ∷ ("validation.invalid_cors", "必须是有效的 URL 或 *")
    ∷ ("validation.invalid_listen", "格式无效 (例如: 0.0.0.0:10005)")
    ∷ ("network.public_node", "公开节点")
    ∷ ("network.public_node_sub", "接受传入P2P连接并向网络广播")
    ∷ ("network.restart_hint", "重启后生效")
    ∷ ("network.restart_required", "节点正以旧的网络设置运行。请重启以应用更改。")
    ∷ ("network.public_ip", "公网IP地址")
    ∷ ("network.public_ip_sub", "向节点广播的IP，默认端口为5521。")
    ∷ ("network.public_ip_ph", "例如 203.0.113.42 或 203.0.113.42:5521")
    ∷ ("network.ip_error", "IP地址无效")
    ∷ ("network.ip_missing", "IP未设置 — 节点将监听但不广播")
    ∷ ("network.group.identity", "节点身份")
    ∷ ("network.group.visibility", "公开可见性")
    ∷ ("network.group.endpoints", "端点与 CORS")
    ∷ ("network.group.credentials", "凭证")
    ∷ ("network.cors", "REST CORS 来源")
    ∷ ("network.cors_sub", "允许访问 REST API 的浏览器来源。留空以禁用 CORS。")
    ∷ ("network.cors_ph", "例如 http://localhost:3000")
    ∷ ("network.pubkey", "节点公钥")
    ∷ ("network.grpc", "gRPC")
    ∷ ("network.rest", "REST")
    ∷ ("network.data_dir", "节点环境")
    ∷ ("network.macaroon", "管理员 Macaroon")
    ∷ ("network.tls", "TLS 证书")
    ∷ ("network.hex_locked", "解锁后可用")
    ∷ ("receive.title", "收款 FLC")
    ∷ ("receive.new_addr", "生成新地址")
    ∷ ("receive.copied", "已复制")
    ∷ ("receive.copy_desc", "地址已复制到剪贴板")
    ∷ ("receive.payment_received", "收到付款")
    ∷ ("receive.addr_type", "地址类型")
    ∷ ("receive.segwit", "SegWit")
    ∷ ("receive.taproot", "Taproot")
    ∷ []
